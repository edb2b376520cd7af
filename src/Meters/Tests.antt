-- ===== src/Meters/Tests.antt =====
-- The theorems on meters, with natural numbers as rates, at a meter of two rates.
use Prim.Native.Nat.{◌*◌, ◌/◌}
use native.Mathlib.Nat.{mul-le-mul_right}
use prog_tm_bmv.Base.{
  sym, ap, zero, suc, map, length, get_elem?, Option, none, some, if◌then◌else◌, ℕ, ◌≡◌, refl,
  arith, Bool, true, false, ltb, List, [], ◌∷◌, ◌≤◌, ◌+◌, ◌-◌,
}
use prog_tm_bmv.Meters.{
  is_success, success, RateConfig, MeterRate, Meter, packets, set_rates, get_rates, execute,
}
use prog_tm_bmv.Meters.Marking.{Marks, execute-Marks}
use prog_tm_bmv.Meters.Limit.{Arrival, let_pass, let_pass-within}
use prog_tm_bmv.Meters.Arrays.{set_rates_array, set_rates_array-map}
use prog_tm_bmv.Meters.Saved.{colors, saved, restored, deserialize-serialize}

abbrev exceeds : ℕ → ℕ → Bool
exceeds a b = ltb b a

abbrev tokens_in : ℕ → ℕ → ℕ
tokens_in time rate = time * rate

abbrev unset : MeterRate ℕ
unset = record {
  valid = false;
  info_rate = 0;
  burst_size = 0;
  tokens = 0;
  tokens_last = 0;
  color = 0;
}

abbrev slow : RateConfig ℕ
slow = record { info_rate = 1; burst_size = 2 }

abbrev fast : RateConfig ℕ
fast = record { info_rate = 3; burst_size = 5 }

abbrev unset_meter : Meter ℕ
unset_meter = record { type = packets; rates = unset ∷ unset ∷ []; configured = false }

abbrev meter : Meter ℕ
meter = record {
  type = packets;
  rates =
      record { valid = true; info_rate = 3; burst_size = 5; tokens = 5; tokens_last = 0; color = 2 }
      ∷ record {
        valid = true;
        info_rate = 1;
        burst_size = 2;
        tokens = 0;
        tokens_last = 7;
        color = 1;
      }
      ∷ [];
  configured = true;
}

execute-Marks_example : Marks tokens_in meter 7 100 0 (execute tokens_in meter 7 100 0)
execute-Marks_example =
    execute-Marks tokens_in meter 7 100 0 refl (omega arith) (omega arith) (omega arith)

abbrev two_packets : List Arrival
two_packets =
    record { time = 7; len = 100; pre_color = 0 }
    ∷ record { time = 9; len = 60; pre_color = 0 }
    ∷ []

abbrev slow_rate : MeterRate ℕ
slow_rate = record {
  valid = true;
  info_rate = 1;
  burst_size = 2;
  tokens = 0;
  tokens_last = 7;
  color = 1;
}

-- Of two packets, the first of which comes when the slower rate has no tokens left.
let_pass-within_example : (let_pass tokens_in meter 1 two_packets).0 ≤ 0 + (9 * 1 - 7)
let_pass-within_example =
    let_pass-within tokens_in two_packets meter 1 7 9 slow_rate
      (λ t t' rate h. mul-le-mul_right rate h) refl refl (omega arith, tt) (omega arith)
      (omega arith) (omega arith)

-- Text with the last digit lost.
abbrev print : ℕ → ℕ
print rate = rate / 10

abbrev read : ℕ → ℕ
read text = text * 10

abbrev exact : RateConfig ℕ
exact = record { info_rate = 1234; burst_size = 5 }

deserialize-serialize_example :
    (get_rates exceeds
        (restored exceeds print read packets false true unset unset unset unset slow exact)
      ≡ record { info_rate = 0; burst_size = 2 } ∷ record { info_rate = 1230; burst_size = 5 } ∷ [])
    × (colors (saved exceeds print read packets false true unset unset unset unset slow exact)
        ≡ 2 ∷ 1 ∷ [])
    × (colors (restored exceeds print read packets false true unset unset unset unset slow exact)
        ≡ 1 ∷ 2 ∷ [])
deserialize-serialize_example =
    deserialize-serialize exceeds print read packets false true unset unset unset unset slow exact
      refl

alike :
    (i : ℕ) (x : Meter ℕ)
    → get_elem? (unset_meter ∷ []) i ≡ some x
    → length x.rates ≡ length unset_meter.rates
alike zero x e =
    sym (ap (λ (o : Option (Meter ℕ)). elim o [ none ↦ 2 | some m ↦ length m.rates ]) e)
alike (suc i) x e = absurd (cc e)

set_rates_array-map_example :
    set_rates_array exceeds (unset_meter ∷ unset_meter ∷ []) (slow ∷ fast ∷ []) ≡ (
      if is_success exceeds (set_rates exceeds unset_meter (slow ∷ fast ∷ [])).0
      then (
        success,
        map (λ x. (set_rates exceeds x (slow ∷ fast ∷ [])).1) (unset_meter ∷ unset_meter ∷ []),
      )
      else (
        (set_rates exceeds unset_meter (slow ∷ fast ∷ [])).0,
        (set_rates exceeds unset_meter (slow ∷ fast ∷ [])).1 ∷ unset_meter ∷ [],
      ))
set_rates_array-map_example =
    set_rates_array-map exceeds unset_meter (unset_meter ∷ []) (slow ∷ fast ∷ []) alike
