-- ===== src/Ledger/Validity/Kept.antt =====
-- The invariant of the ledger, put together.
use ciacola.Base.{
  ◌||◌, ℕ, String, ◌≡◌, refl, Option, none, some, List, [], ◌∷◌, arith, Bool-cases, inl, inr, All,
  unwrap_or, ok, err,
}
use ciacola.Base.Table.{count_where, exists_where, sum_of}
use ciacola.Agent.Definition.{AgentDef, Runtime}
use ciacola.Contract.Registry.{Registry}
use ciacola.Limits.Protection.{AdmissionOverride, TurnProtectionSnapshot}
use ciacola.Ledger.Rows.{Turn, Ledger, Agent}
use ciacola.Ledger.Transitions.{Ending, live, recovery}
use ciacola.Ledger.Turns.{
  is_agent, guarded_insert, may_insert, claim_turn, settle_interruption, interrupt_turn,
  recover_turn, update_turns, abort_claimed_turn, record_usage_snapshot, new_turn,
}
use ciacola.Ledger.Prune.{prune_cutoff, prune_turns}
use ciacola.Ledger.Agents.{
  ProviderMove, normalized_def, moves_provider, bears_token, insert_agent, update_agent_def,
  retire_agent, assign_session, record_provider_session,
}
use ciacola.Ledger.Operations.{
  Op, create, update_def, assign, retire, enqueue, claim, learn_session, snapshot, complete, fail,
  interrupt, recover, abort, prune, apply, accepted, AgentOk, IsValid, bill_of,
}
use ciacola.Ledger.Trace.{
  apply-Write, Update, Update-claim, Update-settle, Update-abort, Update-snapshot, Update-session,
  Update-prune,
}
use ciacola.Ledger.History.{run}
use ciacola.Ledger.Validity.Turns.{
  rows-Write, turns_unique-Write, single_flight-Write, flight-Update,
}
use ciacola.Ledger.Validity.Bills.{
  bill-claim, bill-settle, bill-abort, bill-snapshot, bill-session, bill-prune,
}
use ciacola.Ledger.Validity.Agents.{owned-Write}
use ciacola.Ledger.Validity.Accounts.{
  accounts_keep, accounts-turns, accounts-insert, accounts-retire, accounts-create,
}
use ciacola.Ledger.Validity.Settlement.{accounts_complete, accounts-fail}
use ciacola.Ledger.Validity.Roster.{apply-Roster, unique-Roster, owned-Roster}

module _ (l : Ledger) (v : IsValid l) (agent_id : String) where
  accounts_of_create :
      (def : AgentDef) (spawned_by : Option String) (session token : String)
      → let l' = unwrap_or (insert_agent l def spawned_by agent_id session token) l in
        All (AgentOk l'.turns) l'.agents
  unfolding insert_agent
  accounts_of_create def spawned_by session token =
      elim (Bool-cases
        (exists_where (is_agent agent_id) l.agents || exists_where (bears_token token) l.agents)) [
          | inl e ↦ rw e v.agents_ok
          | inr e ↦ rw e (accounts-create l _ (ground arith) refl refl v.owned v.agents_ok)
        ]

  accounts-accepted :
      (refusal : Option ProviderMove) (agents : List Agent)
      → All (AgentOk l.turns) agents
      → let l' =
          accepted l (elim refusal [ some r ↦ err r | none ↦ ok (record l { agents = agents }) ]) in
        All (AgentOk l'.turns) l'.agents
  accounts-accepted none agents r = r
  accounts-accepted (some m) agents r = v.agents_ok

  accounts-update_def :
      (def : AgentDef)
      → let l' = accepted l (update_agent_def l agent_id def) in All (AgentOk l'.turns) l'.agents
  unfolding update_agent_def
  accounts-update_def def = accounts-accepted (moves_provider l agent_id (normalized_def l def)) _ (
      accounts_keep _ _ l.turns l.agents (λ a. record { agent = refl; retired = refl; cost = refl })
        v.agents_ok)

  accounts-enqueue :
      (prompt : String) (at : ℕ) (provider : String) (admission_override : Option AdmissionOverride)
      (state : String) (protection : TurnProtectionSnapshot)
      → let l' =
          (guarded_insert l agent_id prompt at provider admission_override state protection).0 in
        All (AgentOk l'.turns) l'.agents
  unfolding guarded_insert new_turn
  accounts-enqueue prompt at provider admission_override state protection =
      elim (Bool-cases (may_insert l agent_id)) [
        | inl e ↦ rw e (accounts-insert l _ e refl (v.agents_unique agent_id) v.agents_ok)
        | inr e ↦ rw e v.agents_ok
      ]

-- An update of the turns that changes no bill, and of the agents that changes nothing of the account.
accounts_follow :
    (cutoff : ℕ) (l : Ledger) (v : IsValid l) (ts : List Turn)
    → Update cutoff l ts
    → ((id : String) → sum_of (bill_of id) ts ≡ sum_of (bill_of id) l.turns)
    → All (AgentOk ts) l.agents
accounts_follow cutoff l v ts u b =
    accounts-turns l.turns ts l.agents (flight-Update l ts u) b v.agents_ok

apply-AgentOk :
    (op : Op) (l : Ledger) → IsValid l → All (AgentOk (apply op l).turns) (apply op l).agents
unfolding apply assign_session retire_agent interrupt_turn recover_turn settle_interruption
    update_turns claim_turn abort_claimed_turn record_usage_snapshot record_provider_session
    prune_turns
apply-AgentOk (create def spawned_by agent_id session token) l v =
    accounts_of_create l v agent_id def spawned_by session token
apply-AgentOk (update_def agent_id def) l v = accounts-update_def l v agent_id def
apply-AgentOk (assign agent_id session) l v =
    accounts_keep _ _ l.turns l.agents (λ a. record { agent = refl; retired = refl; cost = refl })
      v.agents_ok
apply-AgentOk (retire agent_id) l v = accounts-retire l agent_id v.agents_ok
apply-AgentOk (enqueue agent_id prompt at provider admission_override state protection) l v =
    accounts-enqueue l v agent_id prompt at provider admission_override state protection
apply-AgentOk (claim agent_id seq now_ms) l v =
    accounts_follow 0 l v _ (Update-claim l agent_id seq now_ms)
      (λ id. bill-claim l v.rows id agent_id seq now_ms)
apply-AgentOk (learn_session agent_id seq session) l v =
    accounts_keep _ _ _ l.agents (λ a. record { agent = refl; retired = refl; cost = refl })
      (accounts_follow 0 l v _ (Update-session l agent_id seq session)
        (λ id. bill-session l v.rows id agent_id seq session))
apply-AgentOk (snapshot agent_id seq usage) l v =
    accounts_follow 0 l v _ (Update-snapshot l agent_id seq usage)
      (λ id. bill-snapshot l v.rows id agent_id seq usage)
apply-AgentOk (complete agent_id seq x now) l v = accounts_complete l v agent_id seq x now
apply-AgentOk (fail agent_id seq ending error x now) l v =
    accounts-fail l v agent_id seq ending error x now
apply-AgentOk (interrupt agent_id seq ending error now_ms) l v =
    accounts_follow 0 l v _ (Update-settle l agent_id seq ending error live now_ms)
      (λ id. bill-settle l v.rows id agent_id seq ending error live now_ms)
apply-AgentOk (recover agent_id seq error now_ms) l v =
    accounts_follow 0 l v _ (Update-settle l agent_id seq Ending.failed error recovery now_ms)
      (λ id. bill-settle l v.rows id agent_id seq Ending.failed error recovery now_ms)
apply-AgentOk (abort agent_id seq error now) l v =
    accounts_follow 0 l v _ (Update-abort l agent_id seq error now)
      (λ id. bill-abort l v.rows id agent_id seq error now)
apply-AgentOk (prune now older_than_days) l v =
    let cutoff = prune_cutoff now older_than_days in
    accounts_follow cutoff l v _ (Update-prune l cutoff) (λ id. bill-prune l v.rows id cutoff)

-- Every operation keeps the ledger valid: the columns of each turn agree; keys are unique; an agent
-- has at most one turn in flight, and none once it is retired; each turn belongs to an agent; and
-- each agent's cost is the sum of the costs of its turns, cut off at i64::MAX.
pub apply-IsValid : (op : Op) (l : Ledger) → IsValid l → IsValid (apply op l)
apply-IsValid op l v =
    let w = apply-Write op l in
    let r = apply-Roster op l in
    record {
      rows = rows-Write l (apply op l).turns w v.rows;
      agents_unique = λ id. unique-Roster l (apply op l).agents r id (v.agents_unique id);
      turns_unique =
          λ id seq. turns_unique-Write l (apply op l).turns w id seq (v.turns_unique id seq);
      single_flight = λ id. single_flight-Write l (apply op l).turns w id (v.single_flight id);
      owned =
          owned-Roster l (apply op l).agents (apply op l).turns r
            (owned-Write l (apply op l).turns w v.owned);
      agents_ok = apply-AgentOk op l v;
    }

pub run-IsValid : (ops : List Op) (l : Ledger) → IsValid l → IsValid (run ops l)
unfolding run
run-IsValid [] l v = v
run-IsValid (op ∷ ops) l v = run-IsValid ops (apply op l) (apply-IsValid op l v)

-- a database with no row
abbrev pub fresh : Runtime → Option String → Registry → Ledger
fresh runtime house_rules providers = record {
  agents = [];
  turns = [];
  runtime = runtime;
  house_rules = house_rules;
  providers = providers;
}

-- Every database that operations reach from the empty one is valid.
pub reachable-IsValid :
    (runtime : Runtime) (house_rules : Option String) (providers : Registry) (ops : List Op)
    → IsValid (run ops (fresh runtime house_rules providers))
unfolding count_where
reachable-IsValid runtime house_rules providers ops =
    run-IsValid ops (fresh runtime house_rules providers) (record {
      rows = tt;
      agents_unique = λ id. omega arith;
      turns_unique = λ id seq. omega arith;
      single_flight = λ id. omega arith;
      owned = tt;
      agents_ok = tt;
    })
