-- ===== src/Ledger/Turns.antt =====
-- crates/ciacola-core/src/ledger.rs: the operations on turns. Each is the database after it and
-- whether it wrote exactly one row; the clock is an argument. A database that fails is left out.
use ciacola.Base.{
  ℕ, ◌+◌, ◌-◌, ◌/◌, max, String, ◌==◌, Bool, true, false, not, ◌&&◌, ◌||◌, Option, none, some, List,
  [], ◌∷◌, ◌++◌, if◌then◌else◌, is_some, or_else, eqb, ltb, i64_max, saturated_i64, ok,
}
use ciacola.Base.Int.{ℤ, max_zero}
use ciacola.Base.Table.{update_where, one_row, find_where, exists_where}
use ciacola.Agent.Exchange.{Exchange, exchange_cost}
use ciacola.Contract.Outcome.{TokenUsage, Cost, Usage}
use ciacola.Contract.Capability.{Capabilities}
use ciacola.Contract.Registry
use ciacola.Contract.Registry.{Registry, Provider}
use ciacola.Limits.Protection.{AdmissionOverride, TurnProtectionSnapshot}
use ciacola.Ledger.Rows.{
  TurnState, queued, Turn, Agent, Ledger, is_queued, is_running, is_killed, is_in_flight, CostState,
  UsageState, ElapsedState, FailureColumn,
}
use ciacola.Ledger.Transitions.{
  Ending, InterruptionTiming, live, recovery, claimed, interrupted, aborted, completed,
  failed_exchange, failed_scalar, observed, old_terminal_provenance,
}

-- agent_id = ?1 AND seq = ?2
unfoldable pub is_turn : String → ℕ → Turn → Bool
is_turn agent_id seq t = t.agent_id == agent_id && eqb t.seq seq

-- agent_id = ?1 AND state IN ('queued', 'running')
unfoldable pub flies_for : String → Turn → Bool
flies_for agent_id t = t.agent_id == agent_id && is_in_flight t.state

-- agent_id = ?1
unfoldable pub is_agent : String → Agent → Bool
is_agent agent_id a = a.agent_id == agent_id

-- UPDATE turns SET state = … WHERE p, with the trigger on the state
unfoldable pub update_turns : (Turn → Bool) → (Turn → Turn) → Ledger → Ledger × Bool
unfolding old_terminal_provenance
update_turns p f l = (
  record l { turns = update_where p (λ t. old_terminal_provenance (f t)) l.turns },
  one_row p l.turns,
)

unfoldable pub get_agent : Ledger → String → Option Agent
get_agent l agent_id = find_where (is_agent agent_id) l.agents

abbrev cost_unavailable : Option Capabilities → Cost
cost_unavailable none = Cost.unreported
cost_unavailable (some c) = if not c.reports_cost then Cost.not_priced else Cost.unreported

abbrev usage_unavailable : Option Capabilities → Usage
usage_unavailable none = Usage.unreported
usage_unavailable (some c) =
    if not c.reports_token_usage then Usage.not_tracked else Usage.unreported

unfoldable pub capabilities_of : Ledger → String → Option Capabilities
capabilities_of l agent_id = elim (get_agent l agent_id) [
  | none ↦ none
  | some a ↦ elim (Registry.get l.providers a.def.provider) [
    | ok p ↦ some p.capabilities
    | _ ↦ none
  ]
]

unfoldable pub unavailable_telemetry : Ledger → String → Cost × Usage
unavailable_telemetry l agent_id =
    let caps = capabilities_of l agent_id in (cost_unavailable caps, usage_unavailable caps)

-- COALESCE(MAX(seq), 0) of the agent's turns
unfoldable pub last_seq : String → List Turn → ℕ
last_seq agent_id [] = 0
last_seq agent_id (t ∷ ts) =
    let rest = last_seq agent_id ts in if t.agent_id == agent_id then max t.seq rest else rest

-- the row that `GUARDED_TURN_INSERT` writes
unfoldable pub new_turn :
    String
    → ℕ
    → String
    → ℕ
    → String
    → Option AdmissionOverride
    → String
    → TurnProtectionSnapshot
    → Turn
new_turn agent_id seq prompt at provider admission_override protection_state protection = record {
  agent_id = agent_id;
  seq = seq;
  prompt = prompt;
  state = queued;
  reply = none;
  error = none;
  cost_micro_usd = 0;
  cost_state = CostState.legacy;
  cost_complete = false;
  elapsed_ms = 0;
  elapsed_state = ElapsedState.legacy;
  claimed_unix_ms = none;
  tokens_in = 0;
  tokens_out = 0;
  tokens_cached = 0;
  usage_state = UsageState.legacy;
  usage_complete = false;
  provider_turns = none;
  provider = provider;
  at_unix = at;
  settled_unix = none;
  admission_override = admission_override;
  turn_protection_state = protection_state;
  turn_protection = some protection;
  failure_kind = FailureColumn.none;
  provider_session = none;
  turn_protection_claim_version = 0;
}

-- WHERE EXISTS (the agent, not retired) AND NOT EXISTS (a turn of it in flight)
unfoldable pub may_insert : Ledger → String → Bool
may_insert l agent_id =
    exists_where (λ (a : Agent). is_agent agent_id a && not a.retired) l.agents
    && not (exists_where (flies_for agent_id) l.turns)

-- `GUARDED_TURN_INSERT`
unfoldable pub guarded_insert :
    Ledger
    → String
    → String
    → ℕ
    → String
    → Option AdmissionOverride
    → String
    → TurnProtectionSnapshot
    → Ledger × Option ℕ
unfolding may_insert
guarded_insert l agent_id prompt at provider admission_override protection_state protection =
    let seq = last_seq agent_id l.turns + 1 in
    if may_insert l agent_id
    then (
      record l {
        turns =
            l.turns
            ++ new_turn agent_id seq prompt at provider admission_override protection_state
                protection
              ∷ [];
      },
      some seq,
    )
    else (l, none)

-- `claim_turn`
unfoldable pub claim_turn : Ledger → String → ℕ → ℕ → Ledger × Bool
claim_turn l agent_id seq now_ms =
    update_turns (λ t. is_turn agent_id seq t && is_queued t.state) (claimed now_ms) l

abbrev pub reaches : InterruptionTiming → TurnState → Bool
reaches live state = is_in_flight state
reaches recovery state = is_running state

-- `settle_interruption`
unfoldable pub settle_interruption :
    Ledger → String → ℕ → Ending → String → InterruptionTiming → ℕ → Ledger × Bool
settle_interruption l agent_id seq ending error timing now_ms =
    let (cost, usage) = unavailable_telemetry l agent_id in
    update_turns (λ t. is_turn agent_id seq t && reaches timing t.state)
      (interrupted cost usage ending error timing now_ms (now_ms / 1000)) l

unfoldable pub interrupt_turn : Ledger → String → ℕ → Ending → String → ℕ → Ledger × Bool
interrupt_turn l agent_id seq ending error now_ms =
    settle_interruption l agent_id seq ending error live now_ms

unfoldable pub recover_turn : Ledger → String → ℕ → String → ℕ → Ledger × Bool
recover_turn l agent_id seq error now_ms =
    settle_interruption l agent_id seq Ending.failed error recovery now_ms

unfoldable pub abort_claimed_turn : Ledger → String → ℕ → String → ℕ → Ledger × Bool
abort_claimed_turn l agent_id seq error now =
    update_turns (λ t. is_turn agent_id seq t && is_running t.state) (aborted error now) l

-- the CASE of the cost in `roll_up_settled_turn`
abbrev pub bank : ℕ → ℕ → ℕ
bank cost added = if ltb (i64_max - added) cost then i64_max else cost + added

abbrev origin : Option String → Option String → ℕ → ℕ → ℕ
origin learned session started seq = elim learned [
  | none ↦ started
  | some new ↦ elim session [
    | none ↦ seq
    | some old ↦ if not (old == new) || eqb started 0 then seq else started
  ]
]

unfoldable pub rolled_up : Option String → ℕ → ℕ → Agent → Agent
rolled_up session cost seq a = record a {
  session = or_else session a.session;
  cost_micro_usd = bank a.cost_micro_usd cost;
  session_started_seq = origin session a.session a.session_started_seq seq;
}

-- `roll_up_settled_turn`
unfoldable pub roll_up_settled_turn : String → Option String → ℕ → ℕ → Ledger → Ledger
unfolding rolled_up
roll_up_settled_turn agent_id session cost seq l = record l {
  agents = update_where (is_agent agent_id) (rolled_up session cost seq) l.agents;
}

-- `complete_turn`
unfoldable pub complete_turn : Ledger → String → ℕ → Exchange → ℕ → Ledger × Bool
complete_turn l agent_id seq x now =
    let (l', recorded) =
      update_turns (λ t. is_turn agent_id seq t && is_running t.state) (completed x now) l in
    if recorded
    then (roll_up_settled_turn agent_id x.session (saturated_i64 (exchange_cost x)) seq l', true)
    else (l', false)

-- `fail_exchange`
unfoldable pub fail_exchange : Ledger → String → ℕ → Ending → String → Exchange → ℕ → Ledger × Bool
fail_exchange l agent_id seq ending error x now =
    let cost = saturated_i64 (exchange_cost x) in
    let (l', recorded) =
      update_turns (λ t. is_turn agent_id seq t && is_in_flight t.state)
        (failed_exchange ending error x now) l in
    if recorded && (ltb 0 cost || is_some x.session)
    then (roll_up_settled_turn agent_id x.session cost seq l', true)
    else (l', recorded)

-- `fail_turn`
unfoldable pub fail_turn :
    Ledger → String → ℕ → Ending → String → ℤ → ℤ → Option String → ℕ → Ledger × Bool
fail_turn l agent_id seq ending error cost_micro_usd elapsed_ms session now =
    let paid = max_zero cost_micro_usd in
    let (unavailable_cost, unavailable_usage) = unavailable_telemetry l agent_id in
    let cost = if ltb 0 paid then Cost.reported paid else unavailable_cost in
    let (l', recorded) =
      update_turns (λ t. is_turn agent_id seq t && is_in_flight t.state)
        (failed_scalar cost unavailable_usage ending error paid (max_zero elapsed_ms) session now)
        l in
    if recorded && (ltb 0 paid || is_some session)
    then (roll_up_settled_turn agent_id session paid seq l', true)
    else (l', recorded)

-- state = 'running' OR (state = 'killed' AND claimed_unix_ms IS NOT NULL)
abbrev takes_usage : Turn → Bool
takes_usage t = is_running t.state || (is_killed t.state && is_some t.claimed_unix_ms)

-- `record_usage_snapshot`, which writes no state and so fires no trigger
unfoldable pub record_usage_snapshot : Ledger → String → ℕ → TokenUsage → Ledger × Bool
record_usage_snapshot l agent_id seq usage =
    let p = λ (t : Turn). is_turn agent_id seq t && takes_usage t in
    (record l { turns = update_where p (observed usage) l.turns }, one_row p l.turns)
