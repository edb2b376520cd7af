-- ===== src/Meters/Limit.antt =====
-- How much each rate of a meter lets pass in a history of packets (`execute` of src/bm_sim/meters.cpp).
use prog_tm_bmv.Base.{
  ℕ, zero, suc, ◌+◌, ◌-◌, ◌^◌, ◌≤◌, ◌<◌, ◌≡◌, refl, ap, sym, subst, arith, ltb, true, if◌then◌else◌,
  Bool-cases, inl, inr, List, [], ◌∷◌, get_elem?, Option, none, some,
}
use prog_tm_bmv.Meters.{MeterRate, Meter, refill, execute_rates, execute}
use prog_tm_bmv.Meters.Marking.{units, input_of-units, execute_rates_short, execute_rates_enough}

-- A packet: the time at which it comes, its length, and its color from before.
pub record Arrival : Type 0 where
  pub time : ℕ
  pub len : ℕ
  pub pre_color : ℕ

-- The packets come in the order of time, from `since` to `until`.
abbrev pub AreOrdered : ℕ → ℕ → List Arrival → Type 0
AreOrdered since until [] = since ≤ until
AreOrdered since until (p ∷ packets) = (since ≤ p.time) × AreOrdered p.time until packets

module _ {Rate : Type 0} where
  -- The rates before place `k` have at least the color `color`.
  abbrev pub HaveColor : ℕ → ℕ → List (MeterRate Rate) → Type 0
  HaveColor color k [] = Unit {0}
  HaveColor color zero (r ∷ rs) = Unit {0}
  HaveColor color (suc k) (r ∷ rs) = (color ≤ r.color) × HaveColor color k rs

module _ {Rate : Type 0} (tokens_in : ℕ → Rate → ℕ) where
  -- How many bytes or packets a meter marks below a color, in a history of packets, and the meter
  -- that they leave.
  unfoldable pub let_pass : Meter Rate → ℕ → List Arrival → ℕ × Meter Rate
  let_pass m color [] = (0, m)
  let_pass m color (p ∷ packets) =
      let (marked, m1) = execute tokens_in m p.time p.len p.pre_color in
      let (passed, m2) = let_pass m1 color packets in
      ((if ltb marked color then units m.type p.len else 0) + passed, m2)

  -- What a packet at a time costs the rate at place `k`, given its color and the rates it leaves.
  record Pays (time input k : ℕ) (r : MeterRate Rate) (result : ℕ × List (MeterRate Rate))
      : Type 0 where
    after : MeterRate Rate
    there : get_elem? result.1 k ≡ some after
    same_rate : after.info_rate ≡ r.info_rate
    same_color : after.color ≡ r.color
    colors : HaveColor r.color k result.1
    seen : r.tokens_last ≤ after.tokens_last
    by_now : after.tokens_last ≤ tokens_in time r.info_rate
    paid :
        (if ltb result.0 r.color then input else 0) + after.tokens + r.tokens_last
        ≤ r.tokens + after.tokens_last

  -- A refill gives no more tokens than the time does.
  refill_lem :
      (time : ℕ) (r : MeterRate Rate)
      → r.tokens_last ≤ tokens_in time r.info_rate
      → tokens_in time r.info_rate < 2 ^ 64
      → (refill tokens_in time r).tokens + r.tokens_last ≤ r.tokens + tokens_in time r.info_rate
  refill_lem time r past small = omega (arith, past, small)

  module _ (time input : ℕ) where
    execute_rates-Pays :
        (k : ℕ) (rs : List (MeterRate Rate)) (r : MeterRate Rate)
        → get_elem? rs k ≡ some r
        → HaveColor r.color k rs
        → r.tokens_last ≤ tokens_in time r.info_rate
        → tokens_in time r.info_rate < 2 ^ 64
        → Pays time input k r (execute_rates tokens_in time input rs)
    unfolding execute_rates
    execute_rates-Pays k [] r at c past small = absurd (cc at)
    execute_rates-Pays zero (x ∷ rs) r at c past small =
        let same : x ≡ r =
          ap (λ (o : Option (MeterRate Rate)). elim o [ none ↦ x | some y ↦ y ]) at in
        subst (λ y. Pays time input 0 r (execute_rates tokens_in time input (y ∷ rs))) (sym same)
          (elim (Bool-cases (ltb (refill tokens_in time r).tokens input)) [
            | inl y ↦
                subst (Pays time input 0 r) (sym (execute_rates_short tokens_in time input r rs y))
                  (record {
                    after = refill tokens_in time r;
                    there = refl;
                    same_rate = refl;
                    same_color = refl;
                    colors = tt;
                    seen = past;
                    by_now = omega arith;
                    paid = ground (arith, refill_lem time r past small);
                  })
            | inr y ↦
                subst (Pays time input 0 r) (sym (execute_rates_enough tokens_in time input r rs y))
                  (record {
                    after = _;
                    there = refl;
                    same_rate = refl;
                    same_color = refl;
                    colors = tt;
                    seen = past;
                    by_now = omega arith;
                    paid = ground (arith, refill_lem time r past small);
                  })
          ])
    execute_rates-Pays (suc k) (x ∷ rs) r at c past small =
        elim (Bool-cases (ltb (refill tokens_in time x).tokens input)) [
          | inl y ↦
              subst (Pays time input (suc k) r)
                (sym (execute_rates_short tokens_in time input x rs y))
                (record {
                  after = r;
                  there = at;
                  same_rate = refl;
                  same_color = refl;
                  colors = c;
                  seen = omega arith;
                  by_now = past;
                  paid = ground (arith, c.0);
                })
          | inr y ↦
              let p = execute_rates-Pays k rs r at c.1 past small in
              subst (Pays time input (suc k) r)
                (sym (execute_rates_enough tokens_in time input x rs y))
                (record {
                  after = p.after;
                  there = p.there;
                  same_rate = p.same_rate;
                  same_color = p.same_color;
                  colors = (c.0, p.colors);
                  seen = p.seen;
                  by_now = p.by_now;
                  paid = p.paid;
                })
        ]

  -- The same for a packet that a configured meter marks.
  execute-Pays :
      (m : Meter Rate) (k time len pre_color : ℕ) (r : MeterRate Rate)
      → m.configured ≡ true
      → get_elem? m.rates k ≡ some r
      → HaveColor r.color k m.rates
      → r.tokens_last ≤ tokens_in time r.info_rate
      → tokens_in time r.info_rate < 2 ^ 64
      → let (marked, m') = execute tokens_in m time len pre_color in
        Pays time (units m.type len) k r (marked, m'.rates)
        × (m'.configured ≡ true)
        × (m'.type ≡ m.type)
  unfolding execute
  execute-Pays m k time len pre_color r on at c past small =
      let p = execute_rates-Pays time (units m.type len) k m.rates r at c past small in
      rw (on, input_of-units tokens_in m.type len)
        (
          record {
            after = p.after;
            there = p.there;
            same_rate = p.same_rate;
            same_color = p.same_color;
            colors = p.colors;
            seen = p.seen;
            by_now = p.by_now;
            paid = ground (arith, p.paid);
          },
          refl,
          refl,
        )

  AreOrdered-until :
      (since until : ℕ) (packets : List Arrival) → AreOrdered since until packets → since ≤ until
  AreOrdered-until since until [] h = h
  AreOrdered-until since until (p ∷ packets) h =
      omega (arith, h.0, AreOrdered-until p.time until packets h.1)

  -- What a rate lets pass, with the tokens that it has left, is within what it had and the tokens of
  -- the time.
  let_pass_lem :
      (packets : List Arrival) (m : Meter Rate) (k since until : ℕ) (r : MeterRate Rate)
      → ((t t' : ℕ) (rate : Rate) → t ≤ t' → tokens_in t rate ≤ tokens_in t' rate)
      → m.configured ≡ true
      → get_elem? m.rates k ≡ some r
      → HaveColor r.color k m.rates
      → r.tokens_last ≤ tokens_in since r.info_rate
      → AreOrdered since until packets
      → tokens_in until r.info_rate < 2 ^ 64
      → (let_pass m r.color packets).0 + r.tokens_last ≤ r.tokens + tokens_in until r.info_rate
  unfolding let_pass
  let_pass_lem [] m k since until r grows on at c past ordered small =
      omega (arith, past, grows since until r.info_rate ordered)
  let_pass_lem (p ∷ packets) m k since until r grows on at c past ordered small =
      let (q, on', same_type) =
        execute-Pays m k p.time p.len p.pre_color r on at c
          (omega (arith, past, grows since p.time r.info_rate ordered.0))
          (omega (
            arith,
            small,
            grows p.time until r.info_rate (AreOrdered-until p.time until packets ordered.1),
          )) in
      let m1 = (execute tokens_in m p.time p.len p.pre_color).1 in
      let rest =
        let_pass_lem packets m1 k p.time until q.after grows on' q.there
          (subst (λ color. HaveColor color k m1.rates) (sym q.same_color) q.colors)
          (omega (arith, q.by_now, ap (tokens_in p.time) q.same_rate)) ordered.1
          (omega (arith, small, ap (tokens_in until) q.same_rate)) in
      omega (
        arith,
        q.paid,
        rest,
        ap (λ color. (let_pass m1 color packets).0) q.same_color,
        ap (tokens_in until) q.same_rate,
      )

  -- In any history of packets in the order of time, a configured meter marks below the color of a
  -- rate no more bytes or packets than the tokens that the rate has and those that the time since
  -- it was last seen gives; if the rates before it have at least its color, the tokens of a time
  -- grow with the time and stay below 2 ^ 64, and the rate was last seen before.
  pub let_pass-within :
      (packets : List Arrival) (m : Meter Rate) (k since until : ℕ) (r : MeterRate Rate)
      → ((t t' : ℕ) (rate : Rate) → t ≤ t' → tokens_in t rate ≤ tokens_in t' rate)
      → m.configured ≡ true
      → get_elem? m.rates k ≡ some r
      → HaveColor r.color k m.rates
      → r.tokens_last ≤ tokens_in since r.info_rate
      → AreOrdered since until packets
      → tokens_in until r.info_rate < 2 ^ 64
      → (let_pass m r.color packets).0 ≤ r.tokens + (tokens_in until r.info_rate - r.tokens_last)
  let_pass-within packets m k since until r grows on at c past ordered small =
      omega (arith, let_pass_lem packets m k since until r grows on at c past ordered small)
