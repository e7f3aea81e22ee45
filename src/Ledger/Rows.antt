-- ===== src/Ledger/Rows.antt =====
-- crates/ciacola-core/src/ledger.rs: the rows of the tables `agents` and `turns`. A column that holds
-- one of a few words is a data type with a constructor for each word. A column that holds JSON
-- is the value. Numbers are natural: each writer stores a `u64` cut off at i64::MAX or a time.
use ciacola.Base.{ℕ, String, Bool, true, false, Option, List}
use ciacola.Agent.Definition.{AgentDef, Runtime}
use ciacola.Contract.Registry.{Registry}
use ciacola.Contract.Outcome.{Cost, Usage, FailureKind}
use ciacola.Limits.Protection.{AdmissionOverride, TurnProtectionSnapshot}

-- `queued -> running -> ok | failed | killed`
pub data TurnState : Type 0 where
  queued running ok failed killed : TurnState

pub data CostState : Type 0 where
  reported unreported not_priced legacy : CostState
  other : String → CostState

pub data UsageState : Type 0 where
  reported unreported not_tracked legacy : UsageState
  other : String → UsageState

pub data ElapsedState : Type 0 where
  measured upper_bound unknown not_attempted legacy : ElapsedState

pub data FailureColumn : Type 0 where
  none limit reported not_attempted legacy : FailureColumn

pub record Turn : Type 0 where
  pub agent_id : String
  pub seq : ℕ
  pub prompt : String
  pub state : TurnState
  pub reply : Option String
  pub error : Option String
  pub cost_micro_usd : ℕ
  pub cost_state : CostState
  pub cost_complete : Bool
  pub elapsed_ms : ℕ
  pub elapsed_state : ElapsedState
  pub claimed_unix_ms : Option ℕ
  pub tokens_in : ℕ
  pub tokens_out : ℕ
  pub tokens_cached : ℕ
  pub usage_state : UsageState
  pub usage_complete : Bool
  pub provider_turns : Option ℕ
  pub provider : String
  pub at_unix : ℕ
  pub settled_unix : Option ℕ
  pub admission_override : Option AdmissionOverride
  pub turn_protection_state : String
  pub turn_protection : Option TurnProtectionSnapshot
  pub failure_kind : FailureColumn
  pub provider_session : Option String
  pub turn_protection_claim_version : ℕ

pub record Agent : Type 0 where
  pub agent_id : String
  pub name : String
  pub def : AgentDef
  pub session : Option String
  pub cost_micro_usd : ℕ
  pub spawned_by : Option String
  pub retired : Bool
  pub session_started_seq : ℕ
  pub token : Option String

pub record Ledger : Type 0 where
  pub agents : List Agent
  pub turns : List Turn
  pub runtime : Runtime
  pub house_rules : Option String
  pub providers : Registry

abbrev pub cost_column : Cost → CostState
cost_column (Cost.reported n) = CostState.reported
cost_column Cost.unreported = CostState.unreported
cost_column Cost.not_priced = CostState.not_priced

abbrev pub usage_column : Usage → UsageState
usage_column (Usage.reported u) = UsageState.reported
usage_column Usage.unreported = UsageState.unreported
usage_column Usage.not_tracked = UsageState.not_tracked

abbrev pub failure_column : Option FailureKind → FailureColumn
failure_column (Option.some FailureKind.limit) = limit
failure_column (Option.some FailureKind.reported) = FailureColumn.reported
failure_column Option.none = FailureColumn.none

abbrev pub is_queued : TurnState → Bool
is_queued queued = true
is_queued running = false
is_queued ok = false
is_queued failed = false
is_queued killed = false

abbrev pub is_running : TurnState → Bool
is_running queued = false
is_running running = true
is_running ok = false
is_running failed = false
is_running killed = false

abbrev pub is_killed : TurnState → Bool
is_killed queued = false
is_killed running = false
is_killed ok = false
is_killed failed = false
is_killed killed = true

-- `state IN ('queued', 'running')`
abbrev pub is_in_flight : TurnState → Bool
is_in_flight queued = true
is_in_flight running = true
is_in_flight ok = false
is_in_flight failed = false
is_in_flight killed = false

abbrev pub is_reported_cost : CostState → Bool
is_reported_cost CostState.reported = true
is_reported_cost CostState.unreported = false
is_reported_cost CostState.not_priced = false
is_reported_cost CostState.legacy = false
is_reported_cost (CostState.other _) = false

abbrev pub is_reported_usage : UsageState → Bool
is_reported_usage UsageState.reported = true
is_reported_usage UsageState.unreported = false
is_reported_usage UsageState.not_tracked = false
is_reported_usage UsageState.legacy = false
is_reported_usage (UsageState.other _) = false
