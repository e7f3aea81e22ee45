-- ===== src/Limits/Tests.antt =====
-- The sample limits, against accountings below and above them.
use ciacola.Base.{
  arith, none, String, ◌≡◌, refl, ◌↔◌, true, false, none, some, [], ◌∷◌, All, arith, ok,
}
use ciacola.Base.Int.{is_negative}
use ciacola.Limits.Config.{provider_limits, stop_micro_usd, warn_micro_usd, validate}
use ciacola.Limits.Config.Validated.{IsSound, Ordered, validate-IsSound}
use ciacola.Limits.Accounting.{
  ProviderAccounting, empty_accounting, AdmissionAccounting, cost_gaps, stopped,
  ProviderAdmissionStatus, state_automatic_allowed,
}
use ciacola.Limits.Evaluate.{evaluate}
use ciacola.Limits.Evaluate.Breakers.{MayRun, evaluate-MayRun, evaluate-global_stop}
use ciacola.Limits.Protection.{
  as_str, enforced_snapshot, unbounded_snapshot, validate_for_execution, enforced,
}
use ciacola.Limits.Protection.Execution.{
  Matches, Enforces, Unlimited, execution_ceiling_iff, execution_unlimited,
}
use ciacola.Contract.Intent.{TurnCeiling}
use ciacola.Samples.{limits, meter}

limits-valid : validate limits ≡ ok tt
unfolding validate
limits-valid = refl

validate-IsSound_example :
    ((key : String) → IsSound (provider_limits limits key))
    × Ordered (warn_micro_usd limits) (stop_micro_usd limits)
    × (is_negative limits.max_spawn_depth ≡ false)
validate-IsSound_example = validate-IsSound limits limits-valid

abbrev low : ProviderAccounting
low = record (empty_accounting "claude") { reports_cost = true; tokens_in = 900 }

abbrev higher : ProviderAccounting
higher = record (empty_accounting "claude") {
  reports_cost = true;
  tokens_in = 4000;
  tokens_out = 7;
}

abbrev spent : AdmissionAccounting
spent = record {
  checked_unix = 100000;
  reported_spend_micro_usd = 6000000;
  providers = ("claude", low) ∷ [];
}

evaluate-MayRun_example :
    All
      (λ (s : ProviderAdmissionStatus).
        (state_automatic_allowed s.state ≡ true)
        ↔ MayRun
            (provider_limits limits s.accounting.provider)
            (stop_micro_usd limits)
            spent.reported_spend_micro_usd
            (cost_gaps spent)
            s.accounting)
      (evaluate limits spent).providers
evaluate-MayRun_example = evaluate-MayRun limits spent

over : (evaluate limits spent).global.state ≡ stopped
unfolding evaluate
over = refl

evaluate-global_stop_example :
    All
      (λ (s : ProviderAdmissionStatus). (s.state ≡ stopped) × (s.automatic_allowed ≡ false))
      (evaluate limits spent).providers
evaluate-global_stop_example = evaluate-global_stop limits spent over

abbrev ceiling : TurnCeiling
ceiling = record { capability = meter; limit = 800 }

execution_ceiling_iff_example :
    (validate_for_execution (enforced_snapshot "claude" 800 meter) "enforced" "claude" (some meter)
      ≡ ok (some ceiling))
    ↔ (Matches (enforced_snapshot "claude" 800 meter) "enforced" "claude"
        × ((enforced_snapshot "claude" 800 meter).state ≡ enforced)
        × Enforces (enforced_snapshot "claude" 800 meter) (some meter) ceiling)
execution_ceiling_iff_example =
    execution_ceiling_iff (enforced_snapshot "claude" 800 meter) (some meter) ceiling "enforced"
      "claude"

free : validate_for_execution (unbounded_snapshot "codex") "unbounded" "codex" none ≡ ok none
unfolding validate_for_execution unbounded_snapshot as_str
free = refl

execution_unlimited_example : Unlimited (unbounded_snapshot "codex") none
execution_unlimited_example =
    execution_unlimited (unbounded_snapshot "codex") none "unbounded" "codex" free
