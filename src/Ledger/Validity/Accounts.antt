-- ===== src/Ledger/Validity/Accounts.antt =====
-- Each agent's row against its turns, under each kind of operation.
use ciacola.Base.{
  ℕ, ◌+◌, ◌≤◌, String, ◌≡◌, Bool, true, false, not, ◌&&◌, Option, List, [], ◌∷◌, ◌++◌, arith,
  Bool-cases, inl, inr, All, All-append, eq_iff, ◌==◌, i64_max, if◌then◌else◌,
}
use ciacola.Base.Table.{
  update_where, count_where, exists_where, All-update_where, All-weaken, All-combine, count-append,
  sum_of, exists_where-false,
}
use ciacola.Ledger.Rows.{Turn, Ledger, Agent}
use ciacola.Ledger.Turns.{is_agent, flies_for, may_insert, rolled_up}
use ciacola.Ledger.Operations.{AgentOk, bill_of}
use ciacola.Ledger.Validity.Bills.{bill-append}
use ciacola.Ledger.Validity.Agents.{working_of_may_insert, bill_of_stranger}

-- A change of an agent's row that neither its bill nor its retirement sees.
pub record Quiet (a a' : Agent) : Type 0 where
  pub agent : a'.agent_id ≡ a.agent_id
  pub retired : a'.retired ≡ a.retired
  pub cost : a'.cost_micro_usd ≡ a.cost_micro_usd

pub accounts_keep :
    (p : Agent → Bool) (f : Agent → Agent) (ts : List Turn) (agents : List Agent)
    → ((a : Agent) → Quiet a (f a))
    → All (AgentOk ts) agents
    → All (AgentOk ts) (update_where p f agents)
accounts_keep p f ts agents q =
    All-update_where (AgentOk ts) p f
      (λ a ok e. record {
        idle = λ r. rw ((q a).agent) (ok.idle (ground (arith, (q a).retired)));
        billed = rw ((q a).agent, (q a).cost) ok.billed;
      })
      agents

-- Turns that are in flight for no more agents, and cost what they did.
pub accounts-turns :
    (ts ts' : List Turn) (agents : List Agent)
    → ((id : String) → count_where (flies_for id) ts' ≤ count_where (flies_for id) ts)
    → ((id : String) → sum_of (bill_of id) ts' ≡ sum_of (bill_of id) ts)
    → All (AgentOk ts) agents
    → All (AgentOk ts') agents
accounts-turns ts ts' agents c b =
    All-weaken (AgentOk ts) (AgentOk ts')
      (λ a ok. record {
        idle = λ r. ground (arith, c a.agent_id, ok.idle);
        billed = rw (b a.agent_id) ok.billed;
      })
      agents

pub accounts-insert :
    (l : Ledger) (t : Turn)
    → may_insert l t.agent_id ≡ true
    → t.cost_micro_usd ≡ 0
    → count_where (is_agent t.agent_id) l.agents ≤ 1
    → All (AgentOk l.turns) l.agents
    → All (AgentOk (l.turns ++ t ∷ [])) l.agents
unfolding count_where flies_for
accounts-insert l t m c u ok =
    All-combine (AgentOk l.turns) (λ (a : Agent). a.agent_id ≡ t.agent_id → a.retired ≡ false)
      (AgentOk (l.turns ++ t ∷ []))
      (λ a k w. record {
        idle = λ r. ground (
          arith,
          k.idle,
          w,
          eq_iff t.agent_id a.agent_id,
          count-append (flies_for a.agent_id) l.turns (t ∷ []),
        );
        billed = rw (bill-append a.agent_id l.turns t c) k.billed;
      })
      l.agents ok (working_of_may_insert l t.agent_id m u)

pub accounts-retire :
    (l : Ledger) (agent_id : String)
    → All (AgentOk l.turns) l.agents
    → All (AgentOk l.turns) (
        update_where
          (λ (a : Agent).
            is_agent agent_id a && not a.retired && not (exists_where (flies_for agent_id) l.turns))
          (λ (a : Agent). record a { retired = true })
          l.agents)
unfolding is_agent
accounts-retire l agent_id =
    All-update_where (AgentOk l.turns) _ _
      (λ a k e. record {
        idle = λ _.
            ground
              (arith, eq_iff a.agent_id agent_id, exists_where-false (flies_for agent_id) l.turns);
        billed = k.billed;
      })
      l.agents

pub accounts-create :
    (l : Ledger) (a : Agent)
    → exists_where (is_agent a.agent_id) l.agents ≡ false
    → a.retired ≡ false
    → a.cost_micro_usd ≡ 0
    → All (λ (t : Turn). exists_where (is_agent t.agent_id) l.agents ≡ true) l.turns
    → All (AgentOk l.turns) l.agents
    → All (AgentOk l.turns) (l.agents ++ a ∷ [])
accounts-create l a e r c owned ok = All-append (AgentOk l.turns) l.agents (a ∷ []) ok (
  record {
    idle = λ x. ground arith;
    billed = ground (arith, bill_of_stranger a.agent_id l.agents l.turns e owned);
  },
  tt,
)

-- A settled turn of a cost: its agent's row is rolled up by it, if it is recorded.
module _ (agent_id : String) (session : Option String) (seq cost : ℕ) (fits : cost ≤ i64_max) where
  AgentOk-rolled_up :
      (ts ts' : List Turn) (a : Agent) (recorded : Bool)
      → count_where (flies_for a.agent_id) ts' ≤ count_where (flies_for a.agent_id) ts
      → sum_of (bill_of a.agent_id) ts'
        ≡ sum_of (bill_of a.agent_id) ts
          + (if recorded && (agent_id == a.agent_id) then cost else 0)
      → AgentOk ts a
      → AgentOk ts' (if recorded && is_agent agent_id a then rolled_up session cost seq a else a)
  unfolding rolled_up is_agent
  AgentOk-rolled_up ts ts' a recorded c b ok =
      elim (Bool-cases (recorded && (a.agent_id == agent_id))) [
        | inl e ↦ rw e (record {
          idle = λ r. ground (arith, ok.idle);
          billed =
              ground (arith, ok.billed, eq_iff a.agent_id agent_id, eq_iff agent_id a.agent_id);
        })
        | inr e ↦ rw e (record {
          idle = λ r. ground (arith, ok.idle);
          billed =
              ground (arith, ok.billed, eq_iff a.agent_id agent_id, eq_iff agent_id a.agent_id);
        })
      ]

  pub accounts-settled :
      (ts ts' : List Turn) (agents : List Agent) (recorded : Bool)
      → ((id : String) → count_where (flies_for id) ts' ≤ count_where (flies_for id) ts)
      → ((id : String)
          → sum_of (bill_of id) ts'
            ≡ sum_of (bill_of id) ts + (if recorded && (agent_id == id) then cost else 0))
      → All (AgentOk ts) agents
      → All (AgentOk ts') (
          if recorded
          then update_where (is_agent agent_id) (rolled_up session cost seq) agents
          else agents)
  unfolding update_where
  accounts-settled ts ts' [] true c b ok = tt
  accounts-settled ts ts' [] false c b ok = tt
  accounts-settled ts ts' (a ∷ agents) true c b ok = (
    AgentOk-rolled_up ts ts' a true (c a.agent_id) (b a.agent_id) ok.0,
    accounts-settled ts ts' agents true c b ok.1,
  )
  accounts-settled ts ts' (a ∷ agents) false c b ok = (
    AgentOk-rolled_up ts ts' a false (c a.agent_id) (b a.agent_id) ok.0,
    accounts-settled ts ts' agents false c b ok.1,
  )
