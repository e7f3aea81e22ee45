-- ===== src/Admission/Admit/Stops.antt =====
-- An admission against the configured stops, from the rows of the window to the decision.
use ciacola.Base.{
  ℕ, ◌<◌, String, ◌≡◌, refl, ◌∙◌, true, Option, none, some, arith, All, All-map, All-map_of, ok,
  eq_iff, ◌==◌, subst, sym, ap,
}
use ciacola.Base.Table.{find_where, All-found, find_where-some}
use ciacola.Base.OrderedMap
use ciacola.Contract.Intent.{CeilingCapability}
use ciacola.Ledger.Rows.{Ledger}
use ciacola.Limits.Config.{Limits, provider_limits, stop_micro_usd, warn_micro_usd}
use ciacola.Limits.Accounting.{
  AdmissionState, GlobalAdmissionStatus, ProviderAdmissionStatus, AdmissionReport,
  AdmissionAccounting, ProviderAccounting, total_tokens, cost_gaps, state_automatic_allowed,
}
use ciacola.Limits.Evaluate.{evaluate, provider_status}
use ciacola.Limits.Evaluate.Breakers.{MayRun, automatic_iff}
use ciacola.Limits.Protection.{unbounded_snapshot, enforced_snapshot, enforced, unbounded}
use ciacola.Admission.Window.{load_window_rows, load_active_agent_counts}
use ciacola.Admission.Report.{
  admission_report_at, resolve_turn_protection, resolve_status, accounting_from_rows,
}
use ciacola.Admission.Admit.{
  AdmissionAuthority, automatic, Plan, check_budget, check_tokens, freeze_protection,
  resolve_override, override_for, decide,
}
use ciacola.Admission.Admit.Fence.{decide-Reached}

-- What a status says of the limits and the accounting that it was evaluated from.
pub record Evaluated (limits : Limits) (spend gaps : ℕ) (s : ProviderAdmissionStatus) : Type 0 where
  pub stop_tokens :
      s.daily_stop_tokens ≡ (provider_limits limits s.accounting.provider).daily_stop_tokens
  pub runs :
      state_automatic_allowed s.state ≡ true
      → MayRun
          (provider_limits limits s.accounting.provider)
          (stop_micro_usd limits)
          spend
          gaps
          s.accounting

Evaluated-status :
    (limits : Limits) (spend gaps : ℕ) (p : ProviderAccounting)
    → Evaluated limits spend gaps (
        provider_status
          (provider_limits limits p.provider)
          (warn_micro_usd limits)
          (stop_micro_usd limits)
          spend
          gaps
          p)
unfolding provider_status
Evaluated-status limits spend gaps p = record {
  stop_tokens = refl;
  runs =
      (automatic_iff (provider_limits limits p.provider) (warn_micro_usd limits)
        (stop_micro_usd limits) spend gaps p).0;
}

Evaluated-resolved :
    (l : Ledger) (limits : Limits) (spend gaps : ℕ) (s : ProviderAdmissionStatus)
    → Evaluated limits spend gaps s
    → Evaluated limits spend gaps (resolve_status l.providers s)
unfolding resolve_status
Evaluated-resolved l limits spend gaps s e =
    let kept : (s' : ProviderAdmissionStatus)
        → s'.accounting ≡ s.accounting
        → s'.state ≡ s.state
        → s'.daily_stop_tokens ≡ s.daily_stop_tokens
        → Evaluated limits spend gaps s' =
      λ s' a b c. record { stop_tokens = rw (a, c) e.stop_tokens; runs = rw (a, b) e.runs } in
    kept (resolve_status l.providers s) (ground arith) (ground arith) (ground arith)

accounting_of :
    (l : Ledger) (limits : Limits) (now : ℕ) (r : AdmissionReport)
    → admission_report_at l limits now ≡ ok r
    → (a : AdmissionAccounting) × (accounting_from_rows l.providers now
          (load_window_rows l now)
          (load_active_agent_counts l)
        ≡ ok a)
      × (r ≡ resolve_turn_protection l.providers (evaluate limits a))
unfolding admission_report_at
accounting_of l limits now r h = ground arith

-- What an admission knows of the stops that it passed.
pub record Measured (limits : Limits) (p : Plan) : Type 0 where
  pub budget : p.global.daily_stop_micro_usd ≡ stop_micro_usd limits
  pub provider : p.status.accounting.provider ≡ p.provider
  pub evaluated : Evaluated limits p.global.reported_spend_micro_usd p.global.cost_gaps p.status

module _ (l : Ledger) (limits : Limits) (authority : AdmissionAuthority) (agent_id source : String)
    (now : ℕ) (p : Plan) (h : decide l limits authority agent_id source now ≡ ok p) where
  measured : Measured limits p
  unfolding resolve_turn_protection evaluate
  measured =
      let r = decide-Reached l limits authority agent_id source now p h in
      let (a, counted, same) = accounting_of l limits now r.report r.reported in
      let spend = a.reported_spend_micro_usd in
      let gaps = cost_gaps a in
      let all : All (Evaluated limits spend gaps)
          (resolve_turn_protection l.providers (evaluate limits a)).providers =
        All-map_of (Evaluated limits spend gaps) (Evaluated limits spend gaps)
          (resolve_status l.providers) (Evaluated-resolved l limits spend gaps)
          (evaluate limits a).providers
          (All-map (Evaluated limits spend gaps) _ (λ q. Evaluated-status limits spend gaps q)
            (OrderedMap.values a.providers)) in
      let asks = λ (s : ProviderAdmissionStatus). s.accounting.provider == r.agent.def.provider in
      let found =
        subst (λ (r : AdmissionReport). find_where asks r.providers ≡ some p.status) same r.found in
      let global = r.global ∙ ap (λ (r : AdmissionReport). r.global) same in
      record {
        budget = ap (λ (g : GlobalAdmissionStatus). g.daily_stop_micro_usd) global;
        provider = ground (
          arith,
          find_where-some asks _ p.status found,
          eq_iff p.status.accounting.provider r.agent.def.provider,
          r.for_provider,
        );
        evaluated =
            rw
              (
                ap (λ (g : GlobalAdmissionStatus). g.reported_spend_micro_usd) global,
                ap (λ (g : GlobalAdmissionStatus). g.cost_gaps) global,
              )
              (All-found (Evaluated limits spend gaps) asks _ p.status all found);
      }

  budget_below :
      (stop : Option ℕ) (spend s : ℕ) → check_budget stop spend ≡ ok tt → stop ≡ some s → spend < s
  unfolding check_budget
  budget_below stop spend s k e = ground arith

  tokens_below :
      (provider : String) (stop : Option ℕ) (used s : ℕ)
      → check_tokens provider stop used ≡ ok tt
      → stop ≡ some s
      → used < s
  unfolding check_tokens
  tokens_below provider stop used s k e = ground arith

  -- Whoever asks, a turn is admitted only below every configured stop: what the window is known to have
  -- cost is below the dollar stop, and what the provider is known to have used is below its token stop.
  pub decide-stops :
      ((s : ℕ) → stop_micro_usd limits ≡ some s → p.global.reported_spend_micro_usd < s)
      × ((s : ℕ)
          → (provider_limits limits p.provider).daily_stop_tokens ≡ some s
          → total_tokens p.status.accounting < s)
  unfolding check_budget check_tokens
  decide-stops =
      let r = decide-Reached l limits authority agent_id source now p h in
      let stop_of = λ (g : GlobalAdmissionStatus). g.daily_stop_micro_usd in
      let spend_of = λ (g : GlobalAdmissionStatus). g.reported_spend_micro_usd in
      let tokens_of = λ (key : String). (provider_limits limits key).daily_stop_tokens in
      (
        λ s e. rw (ap spend_of r.global) (
            budget_below r.report.global.daily_stop_micro_usd
              r.report.global.reported_spend_micro_usd s r.in_budget
              (sym (ap stop_of r.global) ∙ measured.budget ∙ e)),
        λ s e.
            tokens_below r.agent.def.provider p.status.daily_stop_tokens
              (total_tokens p.status.accounting) s r.in_tokens
              (measured.evaluated.stop_tokens ∙ ap tokens_of measured.provider ∙ e),
      )

  override_none :
      (state : AdmissionState) (provider : String) (global : GlobalAdmissionStatus)
      → resolve_override state automatic provider source now global p.status
        ≡ ok p.admission_override
      → (state_automatic_allowed state ≡ true) × (p.admission_override ≡ none)
  unfolding resolve_override override_for
  override_none state provider global k = ground arith

  protection_whole :
      (provider : String) (ceiling : Option ℕ) (capability : Option CeilingCapability)
      → freeze_protection automatic provider source now ceiling capability
        ≡ ok (p.turn_protection, p.turn_protection_override)
      → ((limit : ℕ)
          → ceiling ≡ some limit
          → (p.turn_protection.state ≡ enforced)
            × (p.turn_protection.configured_limit ≡ some limit))
        × (ceiling ≡ none → p.turn_protection.state ≡ unbounded)
        × (p.turn_protection_override ≡ none)
  unfolding freeze_protection enforced_snapshot unbounded_snapshot
  protection_whole provider ceiling capability k =
      (λ limit c. ground arith, λ c. ground arith, ground arith)

  -- Automatic work is admitted only where what is known of cost and tokens is below every configured
  -- stop, every stop that is configured is fully measured, and the provider either prices its work or
  -- has a token stop; it is bounded by the per-turn ceiling wherever the limits configure one for the
  -- provider, and is unbounded only where they configure none; no exception is recorded for it.
  pub decide-automatic :
      authority ≡ automatic
      → MayRun
          (provider_limits limits p.provider)
          (stop_micro_usd limits)
          p.global.reported_spend_micro_usd
          p.global.cost_gaps
          p.status.accounting
        × ((limit : ℕ)
            → (provider_limits limits p.provider).per_turn_ceiling ≡ some limit
            → (p.turn_protection.state ≡ enforced)
              × (p.turn_protection.configured_limit ≡ some limit))
        × ((provider_limits limits p.provider).per_turn_ceiling ≡ none
            → p.turn_protection.state ≡ unbounded)
        × (p.admission_override ≡ none)
        × (p.turn_protection_override ≡ none)
  decide-automatic auto =
      let r = decide-Reached l limits authority agent_id source now p h in
      let ceiling_of = λ (key : String). (provider_limits limits key).per_turn_ceiling in
      let same = sym (ap ceiling_of r.for_provider) in
      let resolved = override_none p.status.state r.agent.def.provider r.report.global (
        subst
          (λ a.
            resolve_override p.status.state a r.agent.def.provider source now r.report.global
              p.status
            ≡ ok p.admission_override)
          auto r.override) in
      let frozen = protection_whole r.agent.def.provider _ r.backend.capabilities.turn_ceiling (
        subst
          (λ a.
            freeze_protection a r.agent.def.provider source now
              (provider_limits limits r.agent.def.provider).per_turn_ceiling
              r.backend.capabilities.turn_ceiling
            ≡ ok (p.turn_protection, p.turn_protection_override))
          auto r.protection) in
      (
        subst
            (λ key.
              MayRun (provider_limits limits key) (stop_micro_usd limits)
                p.global.reported_spend_micro_usd p.global.cost_gaps p.status.accounting)
            measured.provider (measured.evaluated.runs resolved.0),
        λ limit e. frozen.0 limit (same ∙ e),
        λ e. frozen.1 (same ∙ e),
        resolved.1,
        frozen.2,
      )
