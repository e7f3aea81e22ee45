-- ===== src/Executor/Load.antt =====
-- crates/ciacola-core/src/exec.rs: what a claimed turn needs before its provider may run. Reading and
-- parsing the file of endpoints, a new session id, and the sentence of an error are parameters. A
-- protection that is stored but does not parse is left out, as in the ledger.
use Prim.Native.String.{◌++◌}
use ciacola.Base.{
  ℕ, ◌-◌, String, ◌==◌, Bool, false, not, ◌&&◌, Option, none, some, if◌then◌else◌, is_some_and, ltb,
  Result, ok, err, ◌>>=◌, ◌>>◌, refuse_if, ok_or,
}
use ciacola.Base.Text.{show}
use ciacola.Base.Table.{find_where}
use ciacola.Contract.Intent.{CeilingCapability, TurnCeiling, McpScope}
use ciacola.Contract.Failure.{AgentError}
use ciacola.Contract.Registry
use ciacola.Limits.Protection.{
  TurnProtectionState, unbounded, ProtectionError, validate_for_execution,
}
use ciacola.Agent.Definition.{AgentDef}
use ciacola.Agent.Run.{World, Launch, prepare_exchange}
use ciacola.Ledger.Rows.{Turn, Agent, Ledger}
use ciacola.Ledger.Turns.{get_agent, is_turn}
use ciacola.Ledger.Agents.{assign_session}
use ciacola.Executor.Scope.{Json, ScopeError, token_scoped_mcp_scope}

pub data DispatchError : Type 0 where
  no_agent : String → DispatchError
  no_turn : String → ℕ → DispatchError
  provider_moved : String → String → DispatchError
  legacy_turn missing_snapshot : DispatchError
  protection_refused : ProtectionError → DispatchError
  no_credential : String → DispatchError
  scope_refused : ScopeError → DispatchError
  agent_failed : AgentError → DispatchError
  registry_poisoned : DispatchError

pub record Setup : Type 0 where
  pub world : World
  pub read_config : String → Option Json
  pub sentence : DispatchError → String

pub record Loaded : Type 0 where
  pub def : AgentDef
  pub mcp : Option McpScope
  pub session : Option String
  pub started : Bool
  pub prompt : String
  pub turn_ceiling : Option TurnCeiling

abbrev pub map_err : {E F A : Type 0} → (E → F) → Result E A → Result F A
map_err f (ok a) = ok a
map_err f (err e) = err (f e)

unfoldable pub get_turn : Ledger → String → ℕ → Option Turn
get_turn l agent_id seq = find_where (is_turn agent_id seq) l.turns

-- `token_of`
unfoldable pub token_of : Ledger → String → Option String
unfolding get_agent
token_of l agent_id = elim (get_agent l agent_id) [ none ↦ none | some a ↦ a.token ]

unfoldable pub rotation_preamble : String → ℕ → String
unfolding show
rotation_preamble name turns =
    "[Session rotated. You are "
    ++ (name
        ++ (", continuing work that began before this conversation: the previous session ran "
            ++ (show turns
                ++ (" turns and has been closed to keep your context bounded. Nothing is lost that "
                    ++ ("matters. Your durable state is in the system, not in memory of this "
                        ++ ("chat: read your work items (items), server memory (recall), and open "
                            ++ "findings before acting, exactly as you would at the start of any wake.]\n\n"))))))

-- the ceiling that the provider has now, which an unbounded turn does not ask for
unfoldable pub live_capability :
    Ledger → AgentDef → TurnProtectionState → Result DispatchError (Option CeilingCapability)
unfolding Registry.get
live_capability l def unbounded = ok none
live_capability l def _ = map_err agent_failed (Registry.get l.providers def.provider) >>= λ p.
    ok p.capabilities.turn_ceiling

-- the checks on the turn itself
unfoldable pub load_ceiling : Ledger → Agent → Turn → Result DispatchError (Option TurnCeiling)
unfolding live_capability validate_for_execution
load_ceiling l agent turn = do
  refuse_if (not (turn.provider == agent.def.provider))
      (provider_moved turn.provider agent.def.provider)
  refuse_if (turn.turn_protection_state == "legacy") legacy_turn
  protection ← ok_or turn.turn_protection missing_snapshot
  live ← live_capability l agent.def protection.state
  map_err protection_refused
      (validate_for_execution protection turn.turn_protection_state turn.provider live)

-- the endpoints with the agent's credential
unfoldable pub load_mcp :
    Setup → Ledger → String → AgentDef → Result DispatchError (Option McpScope)
unfolding token_of token_scoped_mcp_scope
load_mcp setup l agent_id def = elim def.mcp_config [
  | none ↦ ok none
  | some base ↦ ok_or (token_of l agent_id) (no_credential agent_id) >>= λ token.
      map_err scope_refused (token_scoped_mcp_scope token (setup.read_config base)) >>= λ scope.
      ok (some scope)
]

unfoldable pub is_rotating : Agent → ℕ → Bool
is_rotating agent seq =
    is_some_and agent.def.rotate_after_turns
      (λ limit. ltb 0 agent.session_started_seq && ltb limit (seq - agent.session_started_seq))

-- the end of `load`: a rotation writes its new session before the provider is_active
unfoldable pub open_session :
    Ledger
    → String
    → ℕ
    → String
    → Agent
    → Turn
    → Option McpScope
    → Option TurnCeiling
    → Ledger × Result DispatchError Loaded
unfolding is_rotating rotation_preamble assign_session
open_session l agent_id seq next agent turn mcp ceiling =
    if is_rotating agent seq
    then (
      assign_session l agent_id next,
      ok (record {
        def = agent.def;
        mcp = mcp;
        session = some next;
        started = false;
        prompt = rotation_preamble agent.def.name (seq - agent.session_started_seq) ++ turn.prompt;
        turn_ceiling = ceiling;
      }),
    )
    else (
      l,
      ok (record {
        def = agent.def;
        mcp = mcp;
        session = agent.session;
        started = ltb 0 agent.session_started_seq;
        prompt = turn.prompt;
        turn_ceiling = ceiling;
      }),
    )

-- what `load` reads and checks
pub record Reads : Type 0 where
  pub agent : Agent
  pub turn : Turn
  pub ceiling : Option TurnCeiling
  pub mcp : Option McpScope

unfoldable pub read_all : Setup → Ledger → String → ℕ → Result DispatchError Reads
unfolding get_agent get_turn load_ceiling load_mcp
read_all setup l agent_id seq = do
  agent ← ok_or (get_agent l agent_id) (no_agent agent_id)
  turn ← ok_or (get_turn l agent_id seq) (no_turn agent_id seq)
  ceiling ← load_ceiling l agent turn
  mcp ← load_mcp setup l agent_id agent.def
  ok (record { agent = agent; turn = turn; ceiling = ceiling; mcp = mcp })

-- `load`, with the session id that a rotation would open
unfoldable pub load : Setup → Ledger → String → ℕ → String → Ledger × Result DispatchError Loaded
unfolding read_all open_session
load setup l agent_id seq next = elim (read_all setup l agent_id seq) [
  | err e ↦ (l, err e)
  | ok r ↦ open_session l agent_id seq next r.agent r.turn r.mcp r.ceiling
]

-- everything before the provider is_active: `load`, and the first half of `run_exchange_with_ceiling`
unfoldable pub prepare : Setup → Ledger → String → ℕ → String → Ledger × Result DispatchError Launch
unfolding load prepare_exchange
prepare setup l agent_id seq next =
    let (l', loaded) = load setup l agent_id seq next in
    (
      l',
      loaded >>= λ x. map_err agent_failed (
          prepare_exchange setup.world l'.providers x.def x.mcp x.session x.started x.prompt
            x.turn_ceiling),
    )
