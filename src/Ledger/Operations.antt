-- ===== src/Ledger/Operations.antt =====
-- crates/ciacola-core/src/ledger.rs: its operations, and the pruning of health.rs, as the steps of one
-- machine, and the invariant that they keep. `fail_turn`, which only tests call, is left out.
use ciacola.Base.{
  ℕ, ◌≤◌, String, ◌≡◌, ◌≢◌, true, false, Option, none, List, All, unwrap_or, ◌==◌, i64_max, min,
  if◌then◌else◌, Result, ok, err,
}
use ciacola.Base.Table.{count_where, exists_where, sum_of}
use ciacola.Agent.Definition.{AgentDef}
use ciacola.Agent.Exchange.{Exchange}
use ciacola.Contract.Outcome.{TokenUsage}
use ciacola.Limits.Protection.{AdmissionOverride, TurnProtectionSnapshot}
use ciacola.Ledger.Rows.{Turn, Agent, Ledger, TurnState, CostState, is_in_flight, is_reported_usage}
use ciacola.Ledger.Transitions.{Ending}
use ciacola.Ledger.Turns.{
  is_turn, flies_for, is_agent, guarded_insert, claim_turn, interrupt_turn, recover_turn,
  abort_claimed_turn, complete_turn, fail_exchange, record_usage_snapshot,
}
use ciacola.Ledger.Prune.{prune_cutoff, prune_turns}
use ciacola.Ledger.Agents.{
  insert_agent, update_agent_def, retire_agent, assign_session, record_provider_session,
  ProviderMove,
}

pub data Op : Type 0 where
  create : AgentDef → Option String → String → String → String → Op
  update_def : String → AgentDef → Op
  assign : String → String → Op
  retire : String → Op
  enqueue :
      String → String → ℕ → String → Option AdmissionOverride → String → TurnProtectionSnapshot → Op
  claim : String → ℕ → ℕ → Op
  learn_session : String → ℕ → String → Op
  snapshot : String → ℕ → TokenUsage → Op
  complete : String → ℕ → Exchange → ℕ → Op
  fail : String → ℕ → Ending → String → Exchange → ℕ → Op
  interrupt : String → ℕ → Ending → String → ℕ → Op
  recover : String → ℕ → String → ℕ → Op
  abort : String → ℕ → String → ℕ → Op
  prune : ℕ → ℕ → Op

abbrev pub accepted : Ledger → Result ProviderMove Ledger → Ledger
accepted l (ok l') = l'
accepted l (err _) = l

-- The database after an operation, whether or not the operation found its row.
unfoldable pub apply : Op → Ledger → Ledger
apply (create def spawned_by agent_id session token) l =
    unwrap_or (insert_agent l def spawned_by agent_id session token) l
apply (update_def agent_id def) l = accepted l (update_agent_def l agent_id def)
apply (assign agent_id session) l = assign_session l agent_id session
apply (retire agent_id) l = (retire_agent l agent_id).0
apply (enqueue agent_id prompt at provider admission_override state protection) l =
    (guarded_insert l agent_id prompt at provider admission_override state protection).0
apply (claim agent_id seq now_ms) l = (claim_turn l agent_id seq now_ms).0
apply (learn_session agent_id seq session) l = record_provider_session l agent_id seq session
apply (snapshot agent_id seq usage) l = (record_usage_snapshot l agent_id seq usage).0
apply (complete agent_id seq x now) l = (complete_turn l agent_id seq x now).0
apply (fail agent_id seq ending error x now) l = (fail_exchange l agent_id seq ending error x now).0
apply (interrupt agent_id seq ending error now_ms) l =
    (interrupt_turn l agent_id seq ending error now_ms).0
apply (recover agent_id seq error now_ms) l = (recover_turn l agent_id seq error now_ms).0
apply (abort agent_id seq error now) l = (abort_claimed_turn l agent_id seq error now).0
apply (prune now older_than_days) l = (prune_turns l (prune_cutoff now older_than_days)).0

-- What the columns of one turn say together.
pub record RowOk (t : Turn) : Type 0 where
  pub pending : is_in_flight t.state ≡ true → (t.cost_micro_usd ≡ 0) × (t.settled_unix ≡ none)
  pub final : is_in_flight t.state ≡ false → t.settled_unix ≢ none
  pub cost_known : t.cost_complete ≡ true → t.cost_state ≡ CostState.reported
  pub usage_known : t.usage_complete ≡ true → is_reported_usage t.usage_state ≡ true
  pub unclaimed :
      t.state ≡ TurnState.queued
      → (t.claimed_unix_ms ≡ none) × (t.turn_protection_claim_version ≡ 0)
  pub claimed : t.state ≡ TurnState.running → t.claimed_unix_ms ≢ none

-- what the turn adds to the agent's bill
abbrev pub bill_of : String → Turn → ℕ
bill_of agent_id t = if t.agent_id == agent_id then t.cost_micro_usd else 0

-- What one agent's row says of the turns.
pub record AgentOk (turns : List Turn) (a : Agent) : Type 0 where
  pub idle : a.retired ≡ true → count_where (flies_for a.agent_id) turns ≡ 0
  pub billed : a.cost_micro_usd ≡ min (sum_of (bill_of a.agent_id) turns) i64_max

pub record IsValid (l : Ledger) : Type 0 where
  pub rows : All RowOk l.turns
  pub agents_unique : (agent_id : String) → count_where (is_agent agent_id) l.agents ≤ 1
  pub turns_unique : (agent_id : String) (seq : ℕ) → count_where (is_turn agent_id seq) l.turns ≤ 1
  pub single_flight : (agent_id : String) → count_where (flies_for agent_id) l.turns ≤ 1
  pub owned : All (λ (t : Turn). exists_where (is_agent t.agent_id) l.agents ≡ true) l.turns
  pub agents_ok : All (AgentOk l.turns) l.agents
