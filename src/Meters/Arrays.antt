-- ===== src/Meters/Arrays.antt =====
-- MeterArray (src/bm_sim/meters.cpp, include/bm/bm_sim/meters.h): meters of one type and one number of
-- rates, each with the operations of Meters.antt.
use prog_tm_bmv.Base.{
  ℕ, zero, suc, ◌+◌, ◌≡◌, refl, ap, ◌∙◌, arith, ◌==◌, Bool, true, false, Bool-cases, inl, inr,
  if◌then◌else◌, List, [], ◌∷◌, map, length, length-set, replicate, set, get_elem?,
  get_elem?-set_ne, Option, none, some,
}
use prog_tm_bmv.Meters.{
  RateConfig, MeterRate, Meter, MeterType, MeterErrorCode, success, set_rate, set_each, set_rates,
  reset_rates, new_rate, out_of_order, is_success, execute, serialize, deserialize,
}

module _ {Rate : Type 0} where
  -- the constructor: meters whose rates are all `first`
  unfoldable pub make : MeterType → MeterRate Rate → ℕ → ℕ → List (Meter Rate)
  make type first rate_count size =
      replicate size
        (record { type = type; rates = replicate rate_count first; configured = false })

  unfoldable pub reset_state :
      (exceeds : Rate → Rate → Bool) → List (Meter Rate) → List (Meter Rate)
  reset_state exceeds meters = map (λ m. (reset_rates exceeds m).1) meters

  -- Nothing where there is no meter at `idx`.
  unfoldable pub execute_meter :
      (ℕ → Rate → ℕ) → List (Meter Rate) → ℕ → ℕ → ℕ → ℕ → Option (ℕ × List (Meter Rate))
  execute_meter tokens_in meters idx time ingress_length pre_color = elim (get_elem? meters idx) [
    | none ↦ none
    | some m ↦
        let (color, m') = execute tokens_in m time ingress_length pre_color in
        some (color, set meters idx m')
  ]

module _ {Rate : Type 0} (exceeds : Rate → Rate → Bool) where
  unfoldable pub set_rates_array :
      List (Meter Rate) → List (RateConfig Rate) → MeterErrorCode × List (Meter Rate)
  set_rates_array [] configs = (success, [])
  set_rates_array (m ∷ meters) configs =
      let (rc, m') = set_rates exceeds m configs in
      let (rest_rc, meters') = set_rates_array meters configs in
      if is_success exceeds rc then (rest_rc, m' ∷ meters') else (rc, m' ∷ meters)

  unfoldable pub serialize_array :
      {Text : Type 0} → (Rate → Text) → List (Meter Rate) → List (Bool × List (RateConfig Text))
  serialize_array print meters = map (serialize exceeds print) meters

  -- A meter stays as it is where the stream has ended.
  unfoldable pub deserialize_array :
      {Text : Type 0}
      → (Text → Rate)
      → List (Meter Rate)
      → List (Bool × List (RateConfig Text))
      → List (Meter Rate)
  deserialize_array read [] stream = []
  deserialize_array read (m ∷ meters) [] = m ∷ meters
  deserialize_array read (m ∷ meters) (saved ∷ stream) =
      deserialize exceeds read m saved ∷ deserialize_array read meters stream

  -- the rate before a place
  before : List (MeterRate Rate) → ℕ → Option Rate
  before rates zero = none
  before rates (suc i) = elim (get_elem? rates i) [ none ↦ none | some r ↦ some r.info_rate ]

  abbrev exceeds_some : Option Rate → Rate → Bool
  exceeds_some none rate = false
  exceeds_some (some prev) rate = exceeds prev rate

  before-set :
      (rates : List (MeterRate Rate)) (idx : ℕ) (x : MeterRate Rate)
      → before (set rates idx x) idx ≡ before rates idx
  unfolding before
  before-set rates zero x = refl
  before-set rates (suc i) x =
      ap (λ (o : Option (MeterRate Rate)). elim o [ none ↦ none | some r ↦ some r.info_rate ])
        (get_elem?-set_ne rates (suc i) i x (λ e. omega (arith, e)))

  out_of_order_lem :
      (rates : List (MeterRate Rate)) (idx : ℕ) (config : RateConfig Rate)
      → out_of_order exceeds rates idx config ≡ exceeds_some (before rates idx) config.info_rate
  unfolding before
  out_of_order_lem rates zero config = refl
  out_of_order_lem rates (suc i) config = go (get_elem? rates i)
    where
      go :
          (o : Option (MeterRate Rate))
          → (elim o [ some prev ↦ exceeds prev.info_rate config.info_rate | none ↦ false ])
            ≡ exceeds_some (elim o [ none ↦ none | some r ↦ some r.info_rate ]) config.info_rate
      go none = refl
      go (some r) = refl

  set_same :
      (rates rates' : List (MeterRate Rate)) (idx : ℕ) (x : MeterRate Rate)
      → length rates ≡ length rates'
      → get_elem? (set rates idx x) idx ≡ get_elem? (set rates' idx x) idx
  set_same [] [] idx x l = refl
  set_same [] (b ∷ bs) idx x l = absurd (omega arith)
  set_same (a ∷ as_) [] idx x l = absurd (omega arith)
  set_same (a ∷ as_) (b ∷ bs) zero x l = refl
  set_same (a ∷ as_) (b ∷ bs) (suc i) x l = set_same as_ bs i x (omega arith)

  before_next :
      (rates rates' : List (MeterRate Rate)) (idx : ℕ) (x : MeterRate Rate)
      → length rates ≡ length rates'
      → before (set rates idx x) (idx + 1) ≡ before (set rates' idx x) (idx + 1)
  unfolding before
  before_next rates rates' idx x l =
      let next : idx + 1 ≡ suc idx = omega arith in
      rw next (
        ap (λ (o : Option (MeterRate Rate)). elim o [ none ↦ none | some r ↦ some r.info_rate ])
          (set_same rates rates' idx x l))

  order : (rates : List (MeterRate Rate)) (idx : ℕ) (config : RateConfig Rate) → Bool
  order rates idx config = exceeds_some (before rates idx) config.info_rate

  order_lem :
      (rates : List (MeterRate Rate)) (idx : ℕ) (config : RateConfig Rate)
      → out_of_order exceeds (set rates idx (new_rate exceeds idx config)) idx config
        ≡ order rates idx config
  unfolding order
  order_lem rates idx config =
      out_of_order_lem (set rates idx (new_rate exceeds idx config)) idx config
      ∙ ap (λ o. exceeds_some o config.info_rate)
          (before-set rates idx (new_rate exceeds idx config))

  -- The code of setting rates does not depend on the rates that were there.
  set_each_code :
      (rates rates' : List (MeterRate Rate)) (idx : ℕ) (configs : List (RateConfig Rate))
      → length rates ≡ length rates'
      → before rates idx ≡ before rates' idx
      → (set_each exceeds rates idx configs).0 ≡ (set_each exceeds rates' idx configs).0
  unfolding set_each set_rate order
  set_each_code rates rates' idx [] l e = refl
  set_each_code rates rates' idx (config ∷ configs) l e =
      let rest =
        set_each_code (set rates idx x) (set rates' idx x) (idx + 1) configs long
          (before_next rates rates' idx x l) in
      elim (Bool-cases (order rates idx config)) [
        | inl y ↦
            rw (set_rate, order_lem rates idx config, order_lem rates' idx config, ← same, y) refl
        | inr y ↦
            rw (set_rate, order_lem rates idx config, order_lem rates' idx config, ← same, y) rest
      ]
    where
      x : MeterRate Rate
      x = new_rate exceeds idx config

      same : order rates idx config ≡ order rates' idx config
      same = ap (λ o. exceeds_some o config.info_rate) e

      long : length (set rates idx x) ≡ length (set rates' idx x)
      long = omega (arith, l, length-set rates idx x, length-set rates' idx x)

  set_rates_code :
      (m m' : Meter Rate) (configs : List (RateConfig Rate))
      → length m.rates ≡ length m'.rates
      → (set_rates exceeds m configs).0 ≡ (set_rates exceeds m' configs).0
  unfolding set_rates before
  set_rates_code m m' configs l = elim (Bool-cases (length configs == length m.rates)) [
    | inr y ↦ rw (← l, y) refl
    | inl y ↦
        let each : (set_each exceeds m.rates 0 configs).0
            ≡ (set_each exceeds m'.rates 0 configs).0 =
          set_each_code m.rates m'.rates 0 configs l refl in
        rw (← l, y)
          (elim (Bool-cases (is_success exceeds (set_each exceeds m.rates 0 configs).0)) [
            | inl z ↦ rw (← each, z) refl
            | inr z ↦ rw (← each, z) refl
          ])
  ]

  all_set :
      (m : Meter Rate) (configs : List (RateConfig Rate)) (meters : List (Meter Rate))
      → is_success exceeds (set_rates exceeds m configs).0 ≡ true
      → ((i : ℕ) (x : Meter Rate) → get_elem? meters i ≡ some x → length x.rates ≡ length m.rates)
      → set_rates_array meters configs
        ≡ (success, map (λ x. (set_rates exceeds x configs).1) meters)
  unfolding set_rates_array
  all_set m configs [] y alike = refl
  all_set m configs (x ∷ meters) y alike =
      let code : (set_rates exceeds x configs).0 ≡ (set_rates exceeds m configs).0 =
        set_rates_code x m configs (alike 0 x refl) in
      let rest : set_rates_array meters configs
          ≡ (success, map (λ x. (set_rates exceeds x configs).1) meters) =
        all_set m configs meters y (λ i z e. alike (suc i) z e) in
      rw (code, y, rest) refl

  -- Setting the rates of an array of meters with the same number of rates sets them for every
  -- meter as set_rates of Meter does, or changes the first meter only, and returns the code that
  -- this one meter gives: whether rates are accepted does not depend on the meters.
  pub set_rates_array-map :
      (m : Meter Rate) (meters : List (Meter Rate)) (configs : List (RateConfig Rate))
      → ((i : ℕ) (x : Meter Rate) → get_elem? meters i ≡ some x → length x.rates ≡ length m.rates)
      → set_rates_array (m ∷ meters) configs ≡ (
          if is_success exceeds (set_rates exceeds m configs).0
          then (success, map (λ x. (set_rates exceeds x configs).1) (m ∷ meters))
          else ((set_rates exceeds m configs).0, (set_rates exceeds m configs).1 ∷ meters))
  unfolding set_rates_array
  set_rates_array-map m meters configs alike =
      elim (Bool-cases (is_success exceeds (set_rates exceeds m configs).0)) [
        | inl y ↦ rw (y, all_set m configs meters y alike) refl
        | inr y ↦ rw y refl
      ]
