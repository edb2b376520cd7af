-- ===== src/Meters.antt =====
-- src/bm_sim/meters.cpp and include/bm/bm_sim/meters.h: the color marker of N rates. Rates are `double`
-- in the code: here a type with its comparison, and with the tokens that a rate gives in a time, which
-- is the product converted to an integer. How a rate is written as text and read back, by `<<` and `>>`,
-- is a parameter too, since the default precision does not keep every `double`. The time is that of
-- the clock, in microseconds.
pub mod Marking
pub mod Limit
pub mod Saved
pub mod Arrays
mod Tests
use prog_tm_bmv.Base.{
  ℕ, zero, suc, ◌+◌, ◌-◌, ◌%◌, ◌^◌, ◌==◌, ltb, Bool, true, false, not, if◌then◌else◌, List, [], ◌∷◌,
  map, reverse, length, set, get_elem?, Option, none, some, min, max,
}

pub data MeterType : Type 0 where
  bytes packets : MeterType

-- `MeterErrorCode`
pub data MeterErrorCode : Type 0 where
  success invalid_meter_name invalid_index bad_rates_list invalid_info_rate_value
        invalid_burst_size_value error :
      MeterErrorCode

module _ (Rate : Type 0) where
  -- `rate_config_t`
  pub record RateConfig : Type 0 where
    pub info_rate : Rate
    pub burst_size : ℕ

  pub record MeterRate : Type 0 where
    pub valid : Bool
    pub info_rate : Rate
    pub burst_size : ℕ
    pub tokens : ℕ
    pub tokens_last : ℕ
    pub color : ℕ

  pub record Meter : Type 0 where
    pub type : MeterType
    pub rates : List MeterRate
    pub configured : Bool

module _ {Rate : Type 0} (exceeds : Rate → Rate → Bool) where
  abbrev pub new_rate : ℕ → RateConfig Rate → MeterRate Rate
  new_rate idx config = record {
    valid = true;
    info_rate = config.info_rate;
    burst_size = config.burst_size;
    tokens = config.burst_size;
    tokens_last = 0;
    color = idx + 1;
  }

  -- whether the rate before `idx` is larger
  abbrev pub out_of_order : List (MeterRate Rate) → ℕ → RateConfig Rate → Bool
  out_of_order rates zero config = false
  out_of_order rates (suc prev) config = elim (get_elem? rates prev) [
    | some prev_rate ↦ exceeds prev_rate.info_rate config.info_rate
    | none ↦ false
  ]

  unfoldable pub set_rate :
      List (MeterRate Rate) → ℕ → RateConfig Rate → MeterErrorCode × List (MeterRate Rate)
  set_rate rates idx config =
      let rates' = set rates idx (new_rate idx config) in
      if out_of_order rates' idx config
      then (invalid_info_rate_value, rates')
      else (success, rates')

  abbrev is_success : MeterErrorCode → Bool
  is_success success = true
  is_success invalid_meter_name = false
  is_success invalid_index = false
  is_success bad_rates_list = false
  is_success invalid_info_rate_value = false
  is_success invalid_burst_size_value = false
  is_success error = false

  -- the loop of `set_rates`, from index `idx` on
  unfoldable pub set_each :
      List (MeterRate Rate) → ℕ → List (RateConfig Rate) → MeterErrorCode × List (MeterRate Rate)
  set_each rates idx [] = (success, rates)
  set_each rates idx (config ∷ configs) =
      let (rc, rates') = set_rate rates idx config in
      let rest = set_each rates' (idx + 1) configs in if is_success rc then rest else (rc, rates')

  unfoldable pub set_rates : Meter Rate → List (RateConfig Rate) → MeterErrorCode × Meter Rate
  set_rates m configs =
      if not (length configs == length m.rates)
      then (bad_rates_list, m)
      else (let (rc, rates') = set_each m.rates 0 configs in
          if is_success rc
          then (success, record m { rates = reverse rates'; configured = true })
          else (rc, record m { rates = rates' }))

  abbrev invalid_rate : MeterRate Rate → MeterRate Rate
  invalid_rate r = record r { valid = false }

  unfoldable pub reset_rates : Meter Rate → MeterErrorCode × Meter Rate
  reset_rates m = (success, record m { rates = map invalid_rate m.rates; configured = false })

  abbrev pub config_of : MeterRate Rate → RateConfig Rate
  config_of r = record { info_rate = r.info_rate; burst_size = r.burst_size }

  unfoldable pub get_rates : Meter Rate → List (RateConfig Rate)
  get_rates m = if m.configured then reverse (map config_of m.rates) else []

  -- a rate as a line of the stream
  abbrev pub print_config : {Text : Type 0} → (Rate → Text) → RateConfig Rate → RateConfig Text
  print_config print config = record {
    info_rate = print config.info_rate;
    burst_size = config.burst_size;
  }

  -- What is written: `configured`, and the rates if it is set, each with the text that `<<` gives.
  unfoldable pub serialize :
      {Text : Type 0} → (Rate → Text) → Meter Rate → Bool × List (RateConfig Text)
  serialize print m = (
    m.configured,
    if m.configured then map (λ r. print_config print (config_of r)) m.rates else [],
  )

  -- a line that is read, its rate with `>>`
  abbrev pub read_config : {Text : Type 0} → (Text → Rate) → RateConfig Text → RateConfig Rate
  read_config read config = record {
    info_rate = read config.info_rate;
    burst_size = config.burst_size;
  }

  -- `deserialize` does not look at what `set_rate` returns.
  unfoldable pub set_all :
      List (MeterRate Rate) → ℕ → List (RateConfig Rate) → List (MeterRate Rate)
  set_all rates idx [] = rates
  set_all rates idx (config ∷ configs) = set_all (set_rate rates idx config).1 (idx + 1) configs

  unfoldable pub deserialize :
      {Text : Type 0} → (Text → Rate) → Meter Rate → Bool × List (RateConfig Text) → Meter Rate
  deserialize read m (configured, configs) = record m {
    rates = if configured then set_all m.rates 0 (map (read_config read) configs) else m.rates;
    configured = configured;
  }

module _ {Rate : Type 0} (tokens_in : ℕ → Rate → ℕ) where
  -- a rate with the tokens of the time since it was last seen
  abbrev pub refill : ℕ → MeterRate Rate → MeterRate Rate
  refill time rate = record rate {
    tokens =
        min
          ((rate.tokens + (tokens_in time rate.info_rate + 2 ^ 64 - rate.tokens_last) % 2 ^ 64)
            % 2 ^ 64)
          rate.burst_size;
    tokens_last = tokens_in time rate.info_rate;
  }

  -- The loop of `execute`: the color of the first rate that has too few tokens.
  unfoldable pub execute_rates : ℕ → ℕ → List (MeterRate Rate) → ℕ × List (MeterRate Rate)
  execute_rates time input [] = (0, [])
  execute_rates time input (rate ∷ rates) =
      let filled = refill time rate in
      let (packet_color, rates') = execute_rates time input rates in
      if ltb filled.tokens input
      then (rate.color, filled ∷ rates)
      else (packet_color, record filled { tokens = filled.tokens - input } ∷ rates')

  abbrev pub input_of : MeterType → ℕ → ℕ
  input_of bytes ingress_length = ingress_length
  input_of packets ingress_length = 1

  unfoldable pub execute : Meter Rate → ℕ → ℕ → ℕ → ℕ × Meter Rate
  execute m time ingress_length pre_color =
      if not m.configured
      then (0, m)
      else (let (packet_color, rates') =
            execute_rates time (input_of m.type ingress_length) m.rates in
          (max pre_color packet_color, record m { rates = rates' }))
