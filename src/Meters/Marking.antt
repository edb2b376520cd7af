-- ===== src/Meters/Marking.antt =====
-- `execute` of the meters: the color of a packet, and the bound on the tokens.
use prog_tm_bmv.Base.{
  ℕ, ◌-◌, ◌≤◌, ◌<◌, ◌≡◌, refl, ap, sym, ◌∙◌, arith, ◌==◌, ltb, leb, ◌+◌, ◌^◌, ◌%◌, min, subst, ap₂,
  if◌then◌else◌, Bool, true, false, ◌&&◌, Bool-cases, inl, inr, List, [], ◌∷◌, max,
}
use prog_tm_bmv.Meters.{
  MeterType, bytes, packets, MeterRate, Meter, refill, execute_rates, execute, input_of,
}

-- What a packet of a length takes of the tokens: its bytes, or one.
abbrev pub units : MeterType → ℕ → ℕ
units bytes len = len
units packets len = 1

pub input_of-units :
    {Rate : Type 0} (tokens_in : ℕ → Rate → ℕ) (type : MeterType) (len : ℕ)
    → input_of tokens_in type len ≡ units type len
input_of-units tokens_in bytes len = refl
input_of-units tokens_in packets len = refl

module _ {Rate : Type 0} where
  -- No rate has more tokens than its burst size.
  abbrev pub AreBounded : List (MeterRate Rate) → Type 0
  AreBounded [] = Unit {0}
  AreBounded (r ∷ rs) = (r.tokens ≤ r.burst_size) × AreBounded rs

  -- The color of each rate is above 0, the color of a packet within all rates.
  abbrev pub AreColored : List (MeterRate Rate) → Type 0
  AreColored [] = Unit {0}
  AreColored (r ∷ rs) = (0 < r.color) × AreColored rs

module _ {Rate : Type 0} (tokens_in : ℕ → Rate → ℕ) where
  -- Time has not run backwards for a rate, and its tokens with those of the time fit in a word.
  abbrev pub AreTimely : ℕ → List (MeterRate Rate) → Type 0
  AreTimely time [] = Unit {0}
  AreTimely time (r ∷ rs) =
      (r.tokens_last ≤ tokens_in time r.info_rate)
      × (r.burst_size + tokens_in time r.info_rate < 2 ^ 64)
      × AreTimely time rs

  -- The tokens of a rate at a time: those it had and those that the time since then gives, up to the
  -- burst size.
  abbrev pub tokens_at : ℕ → MeterRate Rate → ℕ
  tokens_at time r = min (r.tokens + (tokens_in time r.info_rate - r.tokens_last)) r.burst_size

  -- Each rate has enough tokens for the packet at a time.
  abbrev pub all_enough : ℕ → ℕ → List (MeterRate Rate) → Bool
  all_enough time input [] = true
  all_enough time input (r ∷ rs) = leb input (tokens_at time r) && all_enough time input rs

  -- a rate that is left at a time with some tokens
  abbrev pub left_with : ℕ → ℕ → MeterRate Rate → MeterRate Rate
  left_with time tokens r = record r { tokens = tokens; tokens_last = tokens_in time r.info_rate }

  -- What a packet leaves: it takes its tokens from each rate that has enough for it, up to the first
  -- that has not, and the rates after that one stay as they are.
  abbrev pub after_packet : ℕ → ℕ → List (MeterRate Rate) → List (MeterRate Rate)
  after_packet time input [] = []
  after_packet time input (r ∷ rs) =
      if leb input (tokens_at time r)
      then left_with time (tokens_at time r - input) r ∷ after_packet time input rs
      else left_with time (tokens_at time r) r ∷ rs

  refill-left_with :
      (time : ℕ) (r : MeterRate Rate)
      → r.tokens ≤ r.burst_size
      → r.tokens_last ≤ tokens_in time r.info_rate
      → r.burst_size + tokens_in time r.info_rate < 2 ^ 64
      → refill tokens_in time r ≡ left_with time (tokens_at time r) r
  refill-left_with time r b past small =
      ap (λ n. record r { tokens = n; tokens_last = tokens_in time r.info_rate })
        (ap (λ n. min n r.burst_size) no_wrap)
    where
      no_wrap :
          (r.tokens + (tokens_in time r.info_rate + 2 ^ 64 - r.tokens_last) % 2 ^ 64) % 2 ^ 64
          ≡ r.tokens + (tokens_in time r.info_rate - r.tokens_last)
      no_wrap = omega (arith, b, past, small)

  module _ (time input : ℕ) where
    pub execute_rates_short :
        (r : MeterRate Rate) (rs : List (MeterRate Rate))
        → ltb (refill tokens_in time r).tokens input ≡ true
        → execute_rates tokens_in time input (r ∷ rs) ≡ (r.color, refill tokens_in time r ∷ rs)
    unfolding execute_rates
    execute_rates_short r rs e = rw (e, execute_rates)

    pub execute_rates_enough :
        (r : MeterRate Rate) (rs : List (MeterRate Rate))
        → ltb (refill tokens_in time r).tokens input ≡ false
        → execute_rates tokens_in time input (r ∷ rs) ≡ (
          (execute_rates tokens_in time input rs).0,
          record (refill tokens_in time r) { tokens = (refill tokens_in time r).tokens - input }
              ∷ (execute_rates tokens_in time input rs).1,
        )
    unfolding execute_rates
    execute_rates_enough r rs e = rw (e, execute_rates)

    -- No rate is left with more tokens than its burst size.
    after_packet-AreBounded :
        (rs : List (MeterRate Rate)) → AreBounded rs → AreBounded (after_packet time input rs)
    after_packet-AreBounded [] b = tt
    after_packet-AreBounded (r ∷ rs) b = elim (Bool-cases (leb input (tokens_at time r))) [
      | inl y ↦ rw y (omega arith, after_packet-AreBounded rs b.1)
      | inr y ↦ rw y (omega arith, b.1)
    ]

    execute_rates_lem :
        (rs : List (MeterRate Rate))
        → AreColored rs
        → AreBounded rs
        → AreTimely time rs
        → (((execute_rates tokens_in time input rs).0 == 0) ≡ all_enough time input rs)
          × ((execute_rates tokens_in time input rs).1 ≡ after_packet time input rs)
    unfolding execute_rates
    execute_rates_lem [] c b t = (refl, refl)
    execute_rates_lem (r ∷ rs) c b t =
        let filled : refill tokens_in time r ≡ left_with time (tokens_at time r) r =
          refill-left_with time r b.0 t.0 t.1 in
        let have : (refill tokens_in time r).tokens ≡ tokens_at time r =
          ap (λ x. x.tokens) filled in
        elim (Bool-cases (leb input (tokens_at time r))) [
          | inr y ↦
              let short : ltb (refill tokens_in time r).tokens input ≡ true =
                ap (λ n. ltb n input) have ∙ ground arith in
              rw y (
                ap (λ x. x.0 == 0) (execute_rates_short r rs short) ∙ above c.0,
                ap (λ x. x.1) (execute_rates_short r rs short) ∙ ap (λ x. x ∷ rs) filled,
              )
          | inl y ↦
              let enough : ltb (refill tokens_in time r).tokens input ≡ false =
                ap (λ n. ltb n input) have ∙ ground arith in
              let (color, left) = execute_rates_lem rs c.1 b.1 t.2 in
              rw y (
                ap (λ x. x.0 == 0) (execute_rates_enough r rs enough) ∙ color,
                ap (λ x. x.1) (execute_rates_enough r rs enough) ∙ ap₂ spend filled left,
              )
        ]
      where
        spend : MeterRate Rate → List (MeterRate Rate) → List (MeterRate Rate)
        spend x xs = record x { tokens = x.tokens - input } ∷ xs

        above : {n : ℕ} → 0 < n → (n == 0) ≡ false
        above h = ground arith

  -- What a packet of a length at a time is marked with, and what it leaves.
  pub record Marks (m : Meter Rate) (time len pre_color : ℕ) (r : ℕ × Meter Rate) : Type 0 where
    pub at_least : pre_color ≤ r.0
    pub green : (r.0 == 0) ≡ (pre_color == 0 && all_enough time (units m.type len) m.rates)
    pub rates : r.1.rates ≡ after_packet time (units m.type len) m.rates
    pub bounded : AreBounded r.1.rates

  -- A configured meter whose rates have colors above 0 and no more tokens than their burst sizes
  -- marks a packet with at least its color from before, and with 0 exactly if that color is 0 and
  -- each rate has enough tokens: those it had and those of the time since it was last seen, up to
  -- its burst size. Each rate up to the first that has too few is left with those tokens, less
  -- those of the packet where there are enough, as seen now; the rates after it stay; none has
  -- more tokens than its burst size. For each rate, the tokens of the time are not below those
  -- when it was last seen, and with its burst size they are below 2 ^ 64.
  pub execute-Marks :
      (m : Meter Rate) (time len pre_color : ℕ)
      → m.configured ≡ true
      → AreColored m.rates
      → AreBounded m.rates
      → AreTimely time m.rates
      → Marks m time len pre_color (execute tokens_in m time len pre_color)
  unfolding execute
  execute-Marks m time len pre_color on c b t =
      let (green, left) = execute_rates_lem time (units m.type len) m.rates c b t in
      rw result (record {
        at_least = omega arith;
        green = both pre_color color ∙ ap (λ x. pre_color == 0 && x) green;
        rates = left;
        bounded = subst AreBounded (sym left) (after_packet-AreBounded time _ m.rates b);
      })
    where
      color : ℕ
      color = (execute_rates tokens_in time (units m.type len) m.rates).0

      both : (x y : ℕ) → (max x y == 0) ≡ (x == 0 && y == 0)
      both x y = ground arith

      result : execute tokens_in m time len pre_color ≡ (
        max pre_color (execute_rates tokens_in time (units m.type len) m.rates).0,
        record m { rates = (execute_rates tokens_in time (units m.type len) m.rates).1 },
      )
      result = rw (on, input_of-units tokens_in m.type len, execute)
