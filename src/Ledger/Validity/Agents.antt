-- ===== src/Ledger/Validity/Agents.antt =====
-- The parts of the invariant that speak of the agents, under the changes that operations make.
use ciacola.Base.{
  ℕ, ◌≤◌, String, ◌≡◌, refl, Bool, true, false, not, ◌&&◌, List, [], ◌∷◌, ◌++◌, arith, Bool-cases,
  inl, inr, All, All-append, eq_iff, subst, sym,
}
use ciacola.Base.Table.{
  update_where, count_where, exists_where, All-update_where, All-weaken, count-update_where_other,
  count-append, count_mono, exists_where-false, exists_where-true, sum_of,
}
use ciacola.Ledger.Rows.{Turn, Ledger, Agent}
use ciacola.Ledger.Turns.{is_agent, may_insert}
use ciacola.Ledger.Operations.{bill_of}
use ciacola.Ledger.Trace.{Write, nothing, one_more, updated, row_update}

-- A row of the same agent.
module _ (p : Agent → Bool) (f : Agent → Agent)
    (h : (a : Agent) → (f a).agent_id ≡ a.agent_id) where
  pub agents_unique-update :
      (agent_id : String) (agents : List Agent)
      → count_where (is_agent agent_id) (update_where p f agents)
        ≡ count_where (is_agent agent_id) agents
  unfolding is_agent
  agents_unique-update agent_id agents =
      count-update_where_other p f (is_agent agent_id) (λ a e. rw (h a) refl) agents

  pub exists-update :
      (agent_id : String) (agents : List Agent)
      → exists_where (is_agent agent_id) agents ≡ true
      → exists_where (is_agent agent_id) (update_where p f agents) ≡ true
  exists-update agent_id agents e = ground (
    arith,
    exists_where-true (is_agent agent_id) agents,
    exists_where-true (is_agent agent_id) (update_where p f agents),
    agents_unique-update agent_id agents,
  )

  pub owned-update :
      (agents : List Agent) (ts : List Turn)
      → All (λ (t : Turn). exists_where (is_agent t.agent_id) agents ≡ true) ts
      → All (λ (t : Turn). exists_where (is_agent t.agent_id) (update_where p f agents) ≡ true) ts
  owned-update agents ts = All-weaken _ _ (λ (t : Turn) e. exists-update t.agent_id agents e) ts

pub exists-append :
    (agent_id : String) (agents : List Agent) (a : Agent)
    → exists_where (is_agent agent_id) agents ≡ true
    → exists_where (is_agent agent_id) (agents ++ a ∷ []) ≡ true
exists-append agent_id agents a e = ground (
  arith,
  exists_where-true (is_agent agent_id) agents,
  exists_where-true (is_agent agent_id) (agents ++ a ∷ []),
  count-append (is_agent agent_id) agents (a ∷ []),
)

pub unique-append :
    (agent_id : String) (agents : List Agent) (a : Agent)
    → exists_where (is_agent a.agent_id) agents ≡ false
    → count_where (is_agent agent_id) agents ≤ 1
    → count_where (is_agent agent_id) (agents ++ a ∷ []) ≤ 1
unfolding count_where is_agent
unique-append agent_id agents a e h = ground (
  arith,
  count-append (is_agent agent_id) agents (a ∷ []),
  eq_iff a.agent_id agent_id,
  exists_where-false (is_agent a.agent_id) agents,
)

-- an agent that may take a turn
abbrev works : String → Agent → Bool
works agent_id a = is_agent agent_id a && not a.retired

pub exists_of_may_insert :
    (l : Ledger) (agent_id : String)
    → may_insert l agent_id ≡ true
    → exists_where (is_agent agent_id) l.agents ≡ true
unfolding may_insert
exists_of_may_insert l agent_id h = ground (
  arith,
  exists_where-true (works agent_id) l.agents,
  exists_where-true (is_agent agent_id) l.agents,
  count_mono (works agent_id) (is_agent agent_id) (λ a e. ground arith) l.agents,
)

none_matches :
    (agent_id : String) (agents : List Agent)
    → count_where (is_agent agent_id) agents ≡ 0
    → All (λ (a : Agent). a.agent_id ≡ agent_id → a.retired ≡ false) agents
unfolding count_where is_agent
none_matches agent_id [] h = tt
none_matches agent_id (a ∷ agents) h =
    (λ e. ground (arith, eq_iff a.agent_id agent_id), none_matches agent_id agents (ground arith))

works_unique :
    (agent_id : String) (agents : List Agent)
    → count_where (is_agent agent_id) agents ≤ 1
    → exists_where (works agent_id) agents ≡ true
    → All (λ (a : Agent). a.agent_id ≡ agent_id → a.retired ≡ false) agents
unfolding count_where exists_where is_agent
works_unique agent_id [] h e = tt
works_unique agent_id (a ∷ agents) h e = elim (Bool-cases (works agent_id a)) [
  | inl w ↦ (λ _. ground arith, none_matches agent_id agents (ground arith))
  | inr w ↦
      let later : exists_where (works agent_id) agents ≡ true = ground arith in
      let few : count_where (is_agent agent_id) agents ≤ 1 = ground arith in
      (
        λ x. ground (
          arith,
          eq_iff a.agent_id agent_id,
          exists_where-true (works agent_id) agents,
          count_mono (works agent_id) (is_agent agent_id) (λ b y. ground arith) agents,
        ),
        works_unique agent_id agents few later,
      )
]

-- The agent that takes a turn is not a retired one.
pub working_of_may_insert :
    (l : Ledger) (agent_id : String)
    → may_insert l agent_id ≡ true
    → count_where (is_agent agent_id) l.agents ≤ 1
    → All (λ (a : Agent). a.agent_id ≡ agent_id → a.retired ≡ false) l.agents
unfolding may_insert
working_of_may_insert l agent_id h u = works_unique agent_id l.agents u (ground arith)

pub owned-Write :
    {cutoff : ℕ}
    → (l : Ledger) (ts : List Turn) → Write cutoff l ts
    → All (λ (t : Turn). exists_where (is_agent t.agent_id) l.agents ≡ true) l.turns
    → All (λ (t : Turn). exists_where (is_agent t.agent_id) l.agents ≡ true) ts
owned-Write l ts nothing h = h
owned-Write l ts (one_more t m _ _ _) h =
    All-append _ l.turns (t ∷ []) h (exists_of_may_insert l t.agent_id m, tt)
owned-Write l ts (updated _ (row_update p f a)) h =
    All-update_where _ p f
      (λ t r e.
        subst (λ id. exists_where (is_agent id) l.agents ≡ true) (sym ((a t e).same_agent)) r)
      l.turns h

-- An agent that is not there has no bill.
pub bill_of_stranger :
    (agent_id : String) (agents : List Agent) (ts : List Turn)
    → exists_where (is_agent agent_id) agents ≡ false
    → All (λ (t : Turn). exists_where (is_agent t.agent_id) agents ≡ true) ts
    → sum_of (bill_of agent_id) ts ≡ 0
unfolding sum_of
bill_of_stranger agent_id agents [] e h = refl
bill_of_stranger agent_id agents (t ∷ ts) e h =
    ground (arith, eq_iff t.agent_id agent_id, h.0, bill_of_stranger agent_id agents ts e h.1)
