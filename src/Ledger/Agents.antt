-- ===== src/Ledger/Agents.antt =====
-- crates/ciacola-core/src/ledger.rs: the operations on agents. A new id, session and token are
-- arguments: the generator of ULIDs is a library.
use ciacola.Base.{
  ℕ, zero, suc, ◌+◌, String, ◌==◌, Bool, true, false, not, ◌&&◌, ◌||◌, Option, none, some, [], ◌∷◌,
  ◌++◌, if◌then◌else◌, or_else, eqb, ltb, Result, ok, err,
}
use ciacola.Base.Table.{update_where, one_row, find_where, exists_where, count_where}
use ciacola.Agent.Definition.{AgentDef, resolve_provider, default_provider_key}
use ciacola.Ledger.Rows.{Turn, Agent, Ledger}
use ciacola.Ledger.Turns.{is_agent, is_turn, flies_for, get_agent}

-- `normalized_def`
unfoldable pub normalized_def : Ledger → AgentDef → AgentDef
normalized_def l def =
    let d = resolve_provider (default_provider_key l.runtime) def in
    let home = if d.provider == "codex" then l.runtime.codex_home else l.runtime.claude_home in
    record d {
      hermetic = or_else d.hermetic l.runtime.hermetic;
      sandbox = or_else d.sandbox l.runtime.sandbox;
      config_home = or_else d.config_home home;
      house_rules = or_else d.house_rules l.house_rules;
    }

-- idx_agents_token: no two rows have the same token, and NULL is not the same as NULL
unfoldable pub bears_token : String → Agent → Bool
bears_token token a = elim a.token [ none ↦ false | some t ↦ t == token ]

-- `insert_agent`, by which `create_agent` and `create_agent_in` write; `none` where the primary key
-- or the index of tokens refuses the row
unfoldable pub insert_agent :
    Ledger → AgentDef → Option String → String → String → String → Option Ledger
insert_agent l def spawned_by agent_id session token =
    let d = normalized_def l def in
    if exists_where (is_agent agent_id) l.agents || exists_where (bears_token token) l.agents
    then none
    else some (record l {
      agents =
          l.agents
          ++ record {
            agent_id = agent_id;
            name = d.name;
            def = d;
            session = some session;
            cost_micro_usd = 0;
            spawned_by = spawned_by;
            retired = false;
            session_started_seq = 0;
            token = some token;
          }
            ∷ [];
    })

pub record ProviderMove : Type 0 where
  pub agent_id : String
  pub turns : ℕ
  pub from : String
  pub to : String

-- (SELECT COUNT(*) FROM turns t WHERE t.agent_id = a.agent_id)
unfoldable pub turn_count : Ledger → String → ℕ
turn_count l agent_id = count_where (λ (t : Turn). t.agent_id == agent_id) l.turns

unfoldable pub moves_provider : Ledger → String → AgentDef → Option ProviderMove
moves_provider l agent_id d = elim (get_agent l agent_id) [
  | none ↦ none
  | some a ↦
      if ltb 0 (turn_count l agent_id) && not (a.def.provider == d.provider)
      then some (record {
        agent_id = agent_id;
        turns = turn_count l agent_id;
        from = a.def.provider;
        to = d.provider;
      })
      else none
]

-- `update_agent_def`
unfoldable pub update_agent_def : Ledger → String → AgentDef → Result ProviderMove Ledger
unfolding moves_provider
update_agent_def l agent_id def =
    let d = normalized_def l def in
    elim (moves_provider l agent_id d) [
      | some refusal ↦ err refusal
      | none ↦ ok (record l {
        agents =
            update_where (is_agent agent_id) (λ (a : Agent). record a { name = d.name; def = d })
              l.agents;
      })
    ]

-- `retire_agent`
unfoldable pub retire_agent : Ledger → String → Ledger × Bool
retire_agent l agent_id =
    let p = λ (a : Agent).
      is_agent agent_id a && not a.retired && not (exists_where (flies_for agent_id) l.turns) in
    (
      record l { agents = update_where p (λ (a : Agent). record a { retired = true }) l.agents },
      one_row p l.agents,
    )

-- `assign_session`
unfoldable pub assign_session : Ledger → String → String → Ledger
assign_session l agent_id session = record l {
  agents =
      update_where (is_agent agent_id)
        (λ (a : Agent). record a { session = some session; session_started_seq = 0 }) l.agents;
}

abbrev opened_at : Option String → String → ℕ → ℕ → ℕ
opened_at none session started seq = seq
opened_at (some old) session started seq =
    if not (old == session) || eqb started 0 then seq else started

-- `record_provider_session`
unfoldable pub record_provider_session : Ledger → String → ℕ → String → Ledger
record_provider_session l agent_id seq session = record l {
  agents =
      update_where (is_agent agent_id)
        (λ (a : Agent). record a {
          session = some session;
          session_started_seq = opened_at a.session session a.session_started_seq seq;
        })
        l.agents;
  turns =
      update_where (is_turn agent_id seq)
        (λ (t : Turn). record t { provider_session = some session }) l.turns;
}

-- the loop of `spawn_depth`: `rounds` of it are left
unfoldable pub depth_from : Ledger → ℕ → ℕ → String → ℕ
depth_from l zero depth current = depth
depth_from l (suc rounds) depth current = elim (get_agent l current) [
  | none ↦ depth
  | some a ↦ elim a.spawned_by [
    | none ↦ depth
    | some parent ↦ depth_from l rounds (depth + 1) parent
  ]
]

unfoldable pub spawn_depth : Ledger → String → ℕ
unfolding depth_from
spawn_depth l agent_id = depth_from l 64 0 agent_id

-- `agent_id_by_token`
unfoldable pub agent_id_by_token : Ledger → String → Option String
agent_id_by_token l token =
    elim (find_where
      (λ (a : Agent). elim a.token [ none ↦ false | some t ↦ t == token ] && not a.retired)
      l.agents) [ none ↦ none | some a ↦ some a.agent_id ]
