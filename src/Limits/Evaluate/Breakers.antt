-- ===== src/Limits/Evaluate/Breakers.antt =====
-- When the circuit breakers of `Limits::evaluate` let automatic work start.
use ciacola.Base.{
  ℕ, ◌≤◌, ◌<◌, ◌≡◌, refl, ◌≢◌, ◌↔◌, ◌⊎◌, true, false, Option, none, some, All, All-map, arith,
}
use ciacola.Base.OrderedMap
use ciacola.Limits.Config.{Limits, ProviderLimits, provider_limits, stop_micro_usd, warn_micro_usd}
use ciacola.Limits.Accounting.{
  ProviderAccounting, total_tokens, usage_gaps, AdmissionAccounting, cost_gaps, stopped,
  state_automatic_allowed, ProviderAdmissionStatus,
}
use ciacola.Limits.Evaluate.{
  provider_state, provider_status, known_stop, telemetry_gap, no_guard, global_state, evaluate,
  reached,
}

-- No stop is reached, no configured stop has a gap in what it measures, and there is a measure.
pub record MayRun (limits : ProviderLimits) (stop : Option ℕ) (spend gaps : ℕ)
    (p : ProviderAccounting) : Type 0 where
  pub below_usd : (s : ℕ) → stop ≡ some s → spend < s
  pub below_tokens : (s : ℕ) → limits.daily_stop_tokens ≡ some s → total_tokens p < s
  pub costs_known : stop ≢ none → gaps ≡ 0
  pub usage_known : limits.daily_stop_tokens ≢ none → usage_gaps p ≡ 0
  pub guarded : (p.reports_cost ≡ true) ⊎ (limits.daily_stop_tokens ≢ none)

reached-false : (o : Option ℕ) (v : ℕ) → (reached o v ≡ false) ↔ ((s : ℕ) → o ≡ some s → v < s)
reached-false none v = (λ _ s e. cc, λ _. refl)
reached-false (some l) v = (λ h s e. ground arith, λ h. ground (arith, h l refl))

module _ (limits : ProviderLimits) (warn stop : Option ℕ) (spend gaps : ℕ)
    (p : ProviderAccounting) where
  allowed_iff :
      (state_automatic_allowed (provider_state limits warn stop spend gaps p).0 ≡ true) ↔ (
        (known_stop limits warn stop spend gaps p ≡ false)
        × (telemetry_gap limits warn stop spend gaps p ≡ false)
        × (no_guard limits warn stop spend gaps p ≡ false))
  unfolding provider_state
  allowed_iff = ground arith

  pub automatic_iff :
      (state_automatic_allowed (provider_state limits warn stop spend gaps p).0 ≡ true)
      ↔ MayRun limits stop spend gaps p
  unfolding known_stop telemetry_gap no_guard
  automatic_iff = (
    λ h. record {
      below_usd = λ s e. ground (arith, allowed_iff);
      below_tokens = λ s e. ground (arith, allowed_iff);
      costs_known = λ e. ground (arith, allowed_iff);
      usage_known = λ e. ground (arith, allowed_iff);
      guarded = ground (arith, allowed_iff);
    },
    λ m. allowed_iff.1 (
      ground (
        arith,
        (reached-false stop spend).1 m.below_usd,
        (reached-false limits.daily_stop_tokens (total_tokens p)).1 m.below_tokens,
      ),
      ground (arith, m.costs_known, m.usage_known),
      ground (arith, m.guarded),
    ),
  )

-- In the report of `evaluate`, the state of each provider admits automatic work exactly if that
-- provider is below every configured stop, every stop that is configured is fully measured, and
-- the provider either prices its work or has a token stop.
pub evaluate-MayRun :
    (l : Limits) (a : AdmissionAccounting)
    → All
        (λ (s : ProviderAdmissionStatus).
          (state_automatic_allowed s.state ≡ true)
          ↔ MayRun
              (provider_limits l s.accounting.provider)
              (stop_micro_usd l)
              a.reported_spend_micro_usd
              (cost_gaps a)
              s.accounting)
        (evaluate l a).providers
unfolding evaluate
evaluate-MayRun l a =
    All-map _ _
      (λ (p : ProviderAccounting).
        automatic_iff (provider_limits l p.provider) (warn_micro_usd l) (stop_micro_usd l)
          a.reported_spend_micro_usd (cost_gaps a) p)
      (OrderedMap.values a.providers)

reached_of_global_stop :
    (warn stop : Option ℕ) (spend gaps : ℕ)
    → global_state warn stop spend gaps ≡ stopped
    → reached stop spend ≡ true
unfolding global_state
reached_of_global_stop warn stop spend gaps h = ground arith

module _ (limits : ProviderLimits) (warn stop : Option ℕ) (spend gaps : ℕ)
    (p : ProviderAccounting) where
  status_of_stop :
      reached stop spend ≡ true
      → let s = provider_status limits warn stop spend gaps p in
        (s.state ≡ stopped) × (s.automatic_allowed ≡ false)
  unfolding provider_status
  status_of_stop h = ground arith

-- The dollar stop is global: once the report's global state is stopped, every provider's state is
-- stopped and none of them takes automatic work.
pub evaluate-global_stop :
    (l : Limits) (a : AdmissionAccounting)
    → (evaluate l a).global.state ≡ stopped
    → All
        (λ (s : ProviderAdmissionStatus). (s.state ≡ stopped) × (s.automatic_allowed ≡ false))
        (evaluate l a).providers
unfolding evaluate
evaluate-global_stop l a h =
    All-map _ _
      (λ (p : ProviderAccounting).
        status_of_stop (provider_limits l p.provider) (warn_micro_usd l) (stop_micro_usd l)
          a.reported_spend_micro_usd (cost_gaps a) p
          (reached_of_global_stop (warn_micro_usd l) (stop_micro_usd l) a.reported_spend_micro_usd
            (cost_gaps a) h))
      (OrderedMap.values a.providers)

-- More use: every counter that a breaker reads is at least what it was, at the same prices.
pub record Grows (p q : ProviderAccounting) : Type 0 where
  pub prices : q.reports_cost ≡ p.reports_cost
  pub tokens_in : p.tokens_in ≤ q.tokens_in
  pub tokens_out : p.tokens_out ≤ q.tokens_out
  pub incomplete : p.usage_incomplete_turns ≤ q.usage_incomplete_turns
  pub unreported : p.usage_unreported_turns ≤ q.usage_unreported_turns
  pub not_tracked : p.usage_not_tracked_turns ≤ q.usage_not_tracked_turns
  pub legacy_unknown : p.usage_legacy_unknown_turns ≤ q.usage_legacy_unknown_turns

-- every turn of the window says what it used
pub record Tracked (p : ProviderAccounting) : Type 0 where
  pub incomplete : p.usage_incomplete_turns ≡ 0
  pub unreported : p.usage_unreported_turns ≡ 0
  pub not_tracked : p.usage_not_tracked_turns ≡ 0
  pub legacy_unknown : p.usage_legacy_unknown_turns ≡ 0
