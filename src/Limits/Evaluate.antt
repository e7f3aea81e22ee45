-- ===== src/Limits/Evaluate.antt =====
-- crates/ciacola-core/src/limits.rs: `Limits::evaluate`, the decision of the circuit breakers.
pub mod Breakers
use ciacola.Base.{
  ℕ, String, Bool, true, false, not, ◌&&◌, ◌||◌, Option, none, some, List, map, if◌then◌else◌,
  is_some, is_none, is_some_and, leb, ltb,
}
use ciacola.Base.OrderedMap
use ciacola.Limits.Config.{Limits, ProviderLimits, provider_limits, stop_micro_usd, warn_micro_usd}
use ciacola.Limits.Accounting.{
  ProviderAccounting, total_tokens, usage_gaps, AdmissionAccounting, cost_gaps, AdmissionState, ok,
  warning, stopped, unobservable, unguarded, state_automatic_allowed, GlobalAdmissionStatus,
  unbounded, unavailable, ProviderAdmissionStatus, AdmissionReport,
}

-- `limit.is_some_and(|limit| value >= limit)`
abbrev pub reached : Option ℕ → ℕ → Bool
reached limit value = is_some_and limit (λ l. leb l value)

unfoldable pub global_state : Option ℕ → Option ℕ → ℕ → ℕ → AdmissionState
global_state warn stop spend gaps =
    if reached stop spend
    then stopped
    else if is_some stop && ltb 0 gaps
    then unobservable
    else if reached warn spend
    then warning
    else ok

module _ (limits : ProviderLimits) (warn stop : Option ℕ) (spend gaps : ℕ)
    (p : ProviderAccounting) where
  unfoldable pub known_stop : Bool
  known_stop = reached stop spend || reached limits.daily_stop_tokens (total_tokens p)

  unfoldable pub telemetry_gap : Bool
  telemetry_gap =
      (is_some stop && ltb 0 gaps) || (is_some limits.daily_stop_tokens && ltb 0 (usage_gaps p))

  unfoldable pub no_guard : Bool
  no_guard = not p.reports_cost && is_none limits.daily_stop_tokens

  unfoldable pub warned : Bool
  warned = reached warn spend || reached limits.daily_warn_tokens (total_tokens p)

  unfoldable pub provider_state : AdmissionState × Option String
  unfolding known_stop telemetry_gap no_guard warned
  provider_state =
      if known_stop
      then (stopped, some "a configured hard stop has been reached")
      else if telemetry_gap
      then (
        unobservable,
        some "a configured hard stop has incomplete telemetry in its rolling window",
      )
      else if no_guard
      then (unguarded, some "this unpriced provider has no token stop for automatic work")
      else if warned
      then (warning, none)
      else (ok, none)

  unfoldable pub provider_status : ProviderAdmissionStatus
  unfolding provider_state
  provider_status =
      let (state, detail) = provider_state in
      record {
        accounting = p;
        daily_warn_tokens = limits.daily_warn_tokens;
        daily_stop_tokens = limits.daily_stop_tokens;
        per_turn_ceiling = limits.per_turn_ceiling;
        turn_protection = if is_some limits.per_turn_ceiling then unavailable else unbounded;
        turn_ceiling_capability = none;
        state = state;
        automatic_allowed = state_automatic_allowed state && is_none limits.per_turn_ceiling;
        detail = detail;
      }

-- `Limits::evaluate`
unfoldable pub evaluate : Limits → AdmissionAccounting → AdmissionReport
unfolding global_state provider_status
evaluate l a =
    let spend = a.reported_spend_micro_usd in
    let warn = warn_micro_usd l in
    let stop = stop_micro_usd l in
    let gaps = cost_gaps a in
    record {
      checked_unix = a.checked_unix;
      global = record {
        reported_spend_micro_usd = spend;
        daily_warn_micro_usd = warn;
        daily_stop_micro_usd = stop;
        cost_gaps = gaps;
        state = global_state warn stop spend gaps;
      };
      providers =
          map
            (λ (p : ProviderAccounting).
              provider_status (provider_limits l p.provider) warn stop spend gaps p)
            (OrderedMap.values a.providers);
    }
