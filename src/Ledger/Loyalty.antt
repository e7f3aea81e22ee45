-- ===== src/Ledger/Loyalty.antt =====
-- An agent that has had a turn stays with its provider: a session is an id of that provider.
use ciacola.Base.{
  ℕ, ◌≤◌, ◌<◌, String, ◌≡◌, refl, ◌∙◌, subst, sym, some, List, [], ◌∷◌, arith, Bool-cases, inl, inr,
  eq_iff, ◌==◌,
}
use ciacola.Base.Table.{count_where, find_where, find-update_where, find-append, find_where-some}
use ciacola.Ledger.Rows.{Turn, Ledger, Agent}
use ciacola.Ledger.Turns.{is_agent, get_agent}
use ciacola.Ledger.Agents.{turn_count}
use ciacola.Ledger.Operations.{Op, apply}
use ciacola.Ledger.History.{Evolves, ended, opened, kept, apply-Evolves, run}
use ciacola.Ledger.Validity.Roster.{Roster, unchanged, hired, changed, apply-Roster}

count-Evolves :
    {cutoff : ℕ}
    → (id : String) (ts ts' : List Turn) → Evolves cutoff ts ts'
    → count_where (λ (t : Turn). t.agent_id == id) ts
      ≤ count_where (λ (t : Turn). t.agent_id == id) ts'
unfolding count_where
count-Evolves id ts ts' ended = omega arith
count-Evolves id ts ts' (opened t _) = omega arith
count-Evolves id ts ts' (kept t t' us us' a e) =
    ground (arith, a.same_agent, count-Evolves id us us' e)

-- Turns are never taken away.
turn_count-grows :
    (op : Op) (l : Ledger) (id : String) → turn_count l id ≤ turn_count (apply op l) id
unfolding turn_count
turn_count-grows op l id = count-Evolves id l.turns (apply op l).turns (apply-Evolves op l)

-- the agent, whose provider is given, in a table of agents
abbrev Serves : String → String → List Agent → Type 0
Serves provider id agents =
    (a : Agent) × (find_where (is_agent id) agents ≡ some a) × (a.def.provider ≡ provider)

Serves-Roster :
    (l : Ledger) (agents : List Agent) (id provider : String)
    → Roster l agents
    → 0 < turn_count l id
    → Serves provider id l.agents
    → Serves provider id agents
unfolding get_agent is_agent
Serves-Roster l agents id provider unchanged n s = s
Serves-Roster l agents id provider (hired b e) n (a, g, k) =
    (a, ground (arith, find-append (is_agent id) l.agents (b ∷ [])), k)
Serves-Roster l agents id provider (changed p f same keeps) n (a, g, k) =
    let at : a.agent_id ≡ id =
      ground (arith, eq_iff a.agent_id id, find_where-some (is_agent id) l.agents a g) in
    let found = find-update_where (is_agent id) p f (λ b _. rw (same b) refl) l.agents in
    elim (Bool-cases (p a)) [
      | inl e ↦ (
        f a,
        ground (arith, found),
        keeps a (subst (λ i. get_agent l i ≡ some a) (sym at) g) e
              (subst (λ i. 0 < turn_count l i) (sym at) n)
            ∙ k,
      )
      | inr e ↦ (a, ground (arith, found), k)
    ]

-- An agent that has had a turn keeps its provider through any run of operations, updates of its
-- definition included.
pub run-provider :
    (ops : List Op) (l : Ledger) (id : String) (a : Agent)
    → get_agent l id ≡ some a
    → 0 < turn_count l id
    → (a' : Agent) × (get_agent (run ops l) id ≡ some a') × (a'.def.provider ≡ a.def.provider)
unfolding run get_agent
run-provider [] l id a h n = (a, h, refl)
run-provider (op ∷ ops) l id a h n =
    let (b, g, k) =
      Serves-Roster l (apply op l).agents id a.def.provider (apply-Roster op l) n (a, h, refl) in
    let (c, g', k') =
      run-provider ops (apply op l) id b g (omega (arith, n, turn_count-grows op l id)) in
    (c, g', k' ∙ k)
