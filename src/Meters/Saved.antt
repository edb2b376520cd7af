-- ===== src/Meters/Saved.antt =====
-- `serialize` and `deserialize` of a meter of two rates, the meters of P4.
use prog_tm_bmv.Base.{
  ℕ, ◌≡◌, ap, ◌∙◌, Bool, true, false, List, [], ◌∷◌, map, set, Bool-cases, inl, inr,
}
use prog_tm_bmv.Meters.{
  RateConfig, MeterRate, Meter, MeterType, success, set_rate, set_each, set_rates, get_rates,
  serialize, set_all, new_rate, out_of_order, deserialize,
}

abbrev pub colors : {Rate : Type 0} → Meter Rate → List ℕ
colors m = map (λ r. r.color) m.rates

module _ {Rate : Type 0} (exceeds : Rate → Rate → Bool) where
  set_rate-rates :
      (rates : List (MeterRate Rate)) (idx : ℕ) (c : RateConfig Rate)
      → (set_rate exceeds rates idx c).1 ≡ set rates idx (new_rate exceeds idx c)
  unfolding set_rate
  set_rate-rates rates idx c =
      elim (Bool-cases (out_of_order exceeds (set rates idx (new_rate exceeds idx c)) idx c)) [
        | inl y ↦ rw (y, set_rate)
        | inr y ↦ rw (y, set_rate)
      ]

module _ {Rate : Type 0} where
  abbrev pub two_rates : MeterType → Bool → MeterRate Rate → MeterRate Rate → Meter Rate
  two_rates type on r0 r1 = record { type = type; rates = r0 ∷ r1 ∷ []; configured = on }

module _ {Rate : Type 0} (exceeds : Rate → Rate → Bool) (type : MeterType) (on : Bool)
    (r0 r1 : MeterRate Rate) (c0 c1 : RateConfig Rate)
    (in_order : exceeds c0.info_rate c1.info_rate ≡ false) where
  -- the meter with two rates set
  abbrev stored : Meter Rate
  stored = two_rates type true (new_rate exceeds 1 c1) (new_rate exceeds 0 c0)

  set_second :
      set_rate exceeds (new_rate exceeds 0 c0 ∷ r1 ∷ []) 1 c1
      ≡ (success, new_rate exceeds 0 c0 ∷ new_rate exceeds 1 c1 ∷ [])
  unfolding set_rate
  set_second = rw in_order

  set_rates-two_rates :
      set_rates exceeds (two_rates type on r0 r1) (c0 ∷ c1 ∷ []) ≡ (success, stored)
  unfolding set_rates set_each set_rate
  set_rates-two_rates = rw set_second

-- A meter that is written with the texts that `print` gives, and read back with `read`.
module _ {Rate Text : Type 0} (exceeds : Rate → Rate → Bool) (print : Rate → Text)
    (read : Text → Rate) where
  -- a rate as it is read back
  abbrev pub reread : RateConfig Rate → RateConfig Rate
  reread c = record { info_rate = read (print c.info_rate); burst_size = c.burst_size }

  -- the meter that a meter is restored to
  abbrev pub reloaded : Meter Rate → Meter Rate → Meter Rate
  reloaded m saved = deserialize exceeds read m (serialize exceeds print saved)

  -- The rates of a meter of two rates are read back in the order in which they are stored.
  reloaded-two_rates :
      (type : MeterType) (on : Bool) (r0 r1 : MeterRate Rate) (c0 c1 : RateConfig Rate)
      → reloaded
          (two_rates type on r0 r1)
          (two_rates type true (new_rate exceeds 1 c1) (new_rate exceeds 0 c0))
        ≡ two_rates type true (new_rate exceeds 0 (reread c1)) (new_rate exceeds 1 (reread c0))
  unfolding serialize deserialize set_all
  reloaded-two_rates type on r0 r1 c0 c1 =
      ap (λ rs. record { type = type; rates = rs; configured = true })
        (ap (λ rs. set_all exceeds rs 1 (reread c0 ∷ []))
            (set_rate-rates exceeds (r0 ∷ r1 ∷ []) 0 (reread c1))
          ∙ set_rate-rates exceeds (new_rate exceeds 0 (reread c1) ∷ r1 ∷ []) 1 (reread c0))

module _ {Rate Text : Type 0} (exceeds : Rate → Rate → Bool) (print : Rate → Text)
    (read : Text → Rate) (type : MeterType) (on on' : Bool) (r0 r1 r2 r3 : MeterRate Rate)
    (c0 c1 : RateConfig Rate) where
  -- a meter of two rates, set
  abbrev pub saved : Meter Rate
  saved = (set_rates exceeds (two_rates type on r0 r1) (c0 ∷ c1 ∷ [])).1

  -- another one of the same type, to which it is restored
  abbrev pub restored : Meter Rate
  restored = reloaded exceeds print read (two_rates type on' r2 r3) saved

  -- A meter of two rates, set in ascending order, that is written and read back into another meter
  -- of two rates has each rate as it is read from its text, in the same order, with the colors
  -- exchanged: those set are 2 and 1, those restored 1 and 2.
  pub deserialize-serialize :
      exceeds c0.info_rate c1.info_rate ≡ false
      → (get_rates exceeds restored
          ≡ reread exceeds print read c0 ∷ reread exceeds print read c1 ∷ [])
        × (colors saved ≡ 2 ∷ 1 ∷ [])
        × (colors restored ≡ 1 ∷ 2 ∷ [])
  unfolding get_rates
  deserialize-serialize in_order = (ap (get_rates exceeds) back, ap colors set_both, ap colors back)
    where
      set_both : saved ≡ stored exceeds type on r0 r1 c0 c1 in_order
      set_both = ap (λ r. r.1) (set_rates-two_rates exceeds type on r0 r1 c0 c1 in_order)

      back :
          restored
          ≡ two_rates type true
              (new_rate exceeds 0 (reread exceeds print read c1))
              (new_rate exceeds 1 (reread exceeds print read c0))
      back =
          ap (reloaded exceeds print read (two_rates type on' r2 r3)) set_both
          ∙ reloaded-two_rates exceeds print read type on' r2 r3 c0 c1
