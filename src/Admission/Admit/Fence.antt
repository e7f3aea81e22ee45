-- ===== src/Admission/Admit/Fence.antt =====
-- What has to hold before `admit_turn` lets a turn through.
use ciacola.Base.{ℕ, String, ◌≡◌, false, Option, some, arith, ok, ◌==◌}
use ciacola.Base.Table.{find_where, count_where}
use ciacola.Contract.Intent.{CeilingCapability}
use ciacola.Contract.Registry
use ciacola.Contract.Registry.{Registry, Provider}
use ciacola.Ledger.Rows.{Agent, Ledger}
use ciacola.Ledger.Turns.{get_agent, flies_for}
use ciacola.Limits.Config.{Limits, provider_limits}
use ciacola.Limits.Accounting.{ProviderAdmissionStatus, AdmissionReport, total_tokens}
use ciacola.Admission.Report.{admission_report_at}
use ciacola.Admission.Admit.{
  AdmissionAuthority, Plan, check_budget, check_tokens, freeze_protection, resolve_override, plan,
  decide, selected,
}

abbrev Spec :
    AdmissionReport
    → Limits
    → AdmissionAuthority
    → String
    → Option CeilingCapability
    → String
    → ℕ
    → Plan
    → Type 0
Spec report limits authority provider capability source now p =
    (p.provider ≡ provider)
    × (p.global ≡ report.global)
    × (find_where (λ (s : ProviderAdmissionStatus). s.accounting.provider == provider)
          report.providers
        ≡ some p.status)
    × (check_budget report.global.daily_stop_micro_usd report.global.reported_spend_micro_usd
        ≡ ok tt)
    × (check_tokens provider p.status.daily_stop_tokens (total_tokens p.status.accounting) ≡ ok tt)
    × (freeze_protection authority provider source now
          (provider_limits limits provider).per_turn_ceiling capability
        ≡ ok (p.turn_protection, p.turn_protection_override))
    × (resolve_override p.status.state authority provider source now report.global p.status
        ≡ ok p.admission_override)

plan-Spec :
    (report : AdmissionReport) (limits : Limits) (authority : AdmissionAuthority)
    (provider : String) (capability : Option CeilingCapability) (source : String) (now : ℕ)
    (p : Plan)
    → plan report limits authority provider capability source now ≡ ok p
    → Spec report limits authority provider capability source now p
unfolding plan
plan-Spec report limits authority provider capability source now p h = ground arith

-- How a decision to admit was reached.
pub record Reached (l : Ledger) (limits : Limits) (authority : AdmissionAuthority)
    (agent_id source : String) (now : ℕ) (p : Plan) : Type 0 where
  pub agent : Agent
  pub listed : get_agent l agent_id ≡ some agent
  pub working : agent.retired ≡ false
  pub idle : count_where (flies_for agent_id) l.turns ≡ 0
  pub backend : Provider
  pub registered : Registry.get l.providers agent.def.provider ≡ ok backend
  pub report : AdmissionReport
  pub reported : admission_report_at l limits now ≡ ok report
  pub found :
      find_where
        (λ (s : ProviderAdmissionStatus). s.accounting.provider == agent.def.provider)
        report.providers
      ≡ some p.status
  pub for_provider : p.provider ≡ agent.def.provider
  pub global : p.global ≡ report.global
  pub in_budget :
      check_budget report.global.daily_stop_micro_usd report.global.reported_spend_micro_usd ≡ ok tt
  pub in_tokens :
      check_tokens agent.def.provider p.status.daily_stop_tokens (total_tokens p.status.accounting)
      ≡ ok tt
  pub protection :
      freeze_protection authority agent.def.provider source now
        (provider_limits limits agent.def.provider).per_turn_ceiling
        backend.capabilities.turn_ceiling
      ≡ ok (p.turn_protection, p.turn_protection_override)
  pub override :
      resolve_override p.status.state authority agent.def.provider source now report.global p.status
      ≡ ok p.admission_override

decide-steps :
    (l : Ledger) (limits : Limits) (authority : AdmissionAuthority) (agent_id source : String)
    (now : ℕ) (p : Plan)
    → decide l limits authority agent_id source now ≡ ok p
    → (a : Agent) × (q : Provider) × (r : AdmissionReport) × (get_agent l agent_id ≡ some a)
      × (a.retired ≡ false)
      × (count_where (flies_for agent_id) l.turns ≡ 0)
      × (Registry.get l.providers a.def.provider ≡ ok q)
      × (admission_report_at l limits now ≡ ok r)
      × (plan r limits authority a.def.provider q.capabilities.turn_ceiling source now ≡ ok p)
unfolding decide selected
decide-steps l limits authority agent_id source now p h = ground arith

pub decide-Reached :
    (l : Ledger) (limits : Limits) (authority : AdmissionAuthority) (agent_id source : String)
    (now : ℕ) (p : Plan)
    → decide l limits authority agent_id source now ≡ ok p
    → Reached l limits authority agent_id source now p
decide-Reached l limits authority agent_id source now p h =
    let (a, q, r, listed, working, idle, registered, reported, planned) =
      decide-steps l limits authority agent_id source now p h in
    let s =
      plan-Spec r limits authority a.def.provider q.capabilities.turn_ceiling source now p
        planned in
    record {
      agent = a;
      listed = listed;
      working = working;
      idle = idle;
      backend = q;
      registered = registered;
      report = r;
      reported = reported;
      found = s.2;
      for_provider = s.0;
      global = s.1;
      in_budget = s.3;
      in_tokens = s.4;
      protection = s.5;
      override = s.6;
    }
