-- ===== src/Limits/Config.antt =====
-- crates/ciacola-core/src/limits.rs: the configured limits and their validation.
pub mod Validated
use ciacola.Base.{
  ℕ, String, Bool, true, false, not, ◌&&◌, ◌||◌, Option, none, some, List, [], ◌∷◌, if◌then◌else◌,
  is_some, is_some_and, unwrap_or, ltb, eqb, i64_max, Result, ok, err, ◌>>=◌, ◌>>◌, refuse_if,
}
use ciacola.Base.Int.{ℤ, is_negative}
use ciacola.Base.OrderedMap
use ciacola.Base.OrderedMap.{OrderedMap}
use ciacola.Contract.Registry
use ciacola.Contract.Registry.{Registry, Provider}

pub record ProviderLimits : Type 0 where
  pub daily_warn_tokens : Option ℕ
  pub daily_stop_tokens : Option ℕ
  pub per_turn_ceiling : Option ℕ

abbrev pub no_limits : ProviderLimits
no_limits = record { daily_warn_tokens = none; daily_stop_tokens = none; per_turn_ceiling = none }

-- A configured `f64` in dollars, by what the program asks of it: `is_finite()`, `value > 0.0`,
-- `value * 1e6 <= i64::MAX as f64`, and `(value * 1e6).round() as i64`, which is not negative
-- for a positive value.
pub record Usd : Type 0 where
  pub is_finite : Bool
  pub is_positive : Bool
  pub is_representable : Bool
  pub micro : ℕ

pub record Limits : Type 0 where
  pub daily_warn_usd : Option Usd
  pub daily_stop_usd : Option Usd
  pub providers : OrderedMap ProviderLimits
  pub max_spawn_depth : ℤ

abbrev micro_of : Option Usd → Option ℕ
micro_of none = none
micro_of (some usd) = some usd.micro

abbrev pub stop_micro_usd : Limits → Option ℕ
stop_micro_usd l = micro_of l.daily_stop_usd

abbrev pub warn_micro_usd : Limits → Option ℕ
warn_micro_usd l = micro_of l.daily_warn_usd

-- `Limits::provider`
unfoldable pub provider_limits : Limits → String → ProviderLimits
provider_limits l key = unwrap_or (OrderedMap.lookup key l.providers) no_limits

pub data LimitsError : Type 0 where
  bad_usd : String → LimitsError
  usd_warn_above_stop negative_depth : LimitsError
  bad_tokens : String → String → LimitsError
  bad_ceiling : String → LimitsError
  token_warn_above_stop : String → LimitsError
  unknown_provider : String → LimitsError
  token_usage_unreported : String → LimitsError

unfoldable pub validate_usd : String → Option Usd → Result LimitsError Unit
validate_usd name none = ok tt
validate_usd name (some usd) =
    refuse_if (not usd.is_finite || not usd.is_positive || not usd.is_representable) (bad_usd name)

-- `value == 0 || value > i64::MAX as u64`
abbrev pub out_of_range : Option ℕ → Bool
out_of_range o = is_some_and o (λ v. eqb v 0 || ltb i64_max v)

unfoldable pub validate_tokens : String → String → Option ℕ → Result LimitsError Unit
validate_tokens provider name v = refuse_if (out_of_range v) (bad_tokens provider name)

unfoldable pub validate_ceiling : String → Option ℕ → Result LimitsError Unit
validate_ceiling provider v = refuse_if (out_of_range v) (bad_ceiling provider)

-- `if let (Some(warn), Some(stop)) = … && warn > stop`
abbrev pub warn_above_stop : Option ℕ → Option ℕ → Bool
warn_above_stop (some warn) (some stop) = ltb stop warn
warn_above_stop none _ = false
warn_above_stop (some warn) none = false

unfoldable pub validate_provider : String → ProviderLimits → Result LimitsError Unit
unfolding validate_tokens validate_ceiling
validate_provider provider limits = do
  validate_tokens provider "daily_warn_tokens" limits.daily_warn_tokens
  validate_tokens provider "daily_stop_tokens" limits.daily_stop_tokens
  validate_ceiling provider limits.per_turn_ceiling
  refuse_if (warn_above_stop limits.daily_warn_tokens limits.daily_stop_tokens)
      (token_warn_above_stop provider)

unfoldable pub validate_each : OrderedMap ProviderLimits → Result LimitsError Unit
unfolding validate_provider
validate_each [] = ok tt
validate_each ((provider, limits) ∷ rest) =
    let others = validate_each rest in validate_provider provider limits >> others

-- `Limits::validate`
unfoldable pub validate : Limits → Result LimitsError Unit
unfolding validate_usd validate_each
validate l = do
  validate_usd "daily_warn_usd" l.daily_warn_usd
  validate_usd "daily_stop_usd" l.daily_stop_usd
  refuse_if (warn_above_stop (warn_micro_usd l) (stop_micro_usd l)) usd_warn_above_stop
  refuse_if (is_negative l.max_spawn_depth) negative_depth
  validate_each l.providers

unfoldable pub validate_capability : Registry → String → ProviderLimits → Result LimitsError Unit
validate_capability registry key limits = elim (Registry.get registry key) [
  | err _ ↦ err (unknown_provider key)
  | ok provider ↦
      refuse_if
        ((is_some limits.daily_warn_tokens || is_some limits.daily_stop_tokens)
          && not provider.capabilities.reports_token_usage)
        (token_usage_unreported key)
]

unfoldable pub validate_capabilities :
    Registry → OrderedMap ProviderLimits → Result LimitsError Unit
unfolding validate_capability
validate_capabilities registry [] = ok tt
validate_capabilities registry ((key, limits) ∷ rest) =
    let others = validate_capabilities registry rest in
    validate_capability registry key limits >> others

-- `Limits::validate_providers`
unfoldable pub validate_providers : Limits → Registry → Result LimitsError Unit
unfolding validate validate_capabilities
validate_providers l registry = do validate l; validate_capabilities registry l.providers
