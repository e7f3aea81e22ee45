-- ===== src/RepoWorker/Delegation/Ancestors.antt =====
-- The lineage of an agent in the ledger, as the table has it.
use ciacola.Base.{
  ℕ, suc, ◌≤◌, String, ◌≡◌, refl, ap, subst, Bool, true, ◌||◌, none, some, ltb, arith,
}
use ciacola.Ledger.Rows.{Agent, Ledger}
use ciacola.Ledger.Turns.{get_agent}

-- Following `spawned_by` from an agent ends after so many steps, at an agent that no agent spawned.
pub data Rooted (l : Ledger) : String → ℕ → Type 0 where
  root : (id : String) (a : Agent) → get_agent l id ≡ some a → a.spawned_by ≡ none → Rooted l id 0
  child :
      (id parent : String) (a : Agent) (n : ℕ)
      → get_agent l id ≡ some a
      → a.spawned_by ≡ some parent
      → Rooted l parent n
      → Rooted l id (suc n)

-- Following it for so many steps leads to another agent.
pub data Above (l : Ledger) (top : String) : String → ℕ → Type 0 where
  itself : Above l top top 0
  parent_of :
      (id parent : String) (a : Agent) (n : ℕ)
      → get_agent l id ≡ some a
      → a.spawned_by ≡ some parent
      → Above l top parent n
      → Above l top id (suc n)

-- an agent is so many steps below its manager, and its lineage is whole and not too deep
pub record Descends (l : Ledger) (id manager : String) (allow_manager_itself : Bool) (hops : ℕ)
    : Type 0 where
  pub above : Above l manager id hops
  pub counts : (ltb 0 hops || allow_manager_itself) ≡ true
  pub depth : ℕ
  pub rooted : Rooted l id depth
  pub shallow : depth ≤ 64

pub same_parent :
    (l : Ledger) (id : String) (a b : Agent)
    → get_agent l id ≡ some a
    → get_agent l id ≡ some b
    → a.spawned_by ≡ b.spawned_by
same_parent l id a b e f = let same : a ≡ b = ground arith in ap (λ (a : Agent). a.spawned_by) same

pub same_height : (l : Ledger) (id : String) (m n : ℕ) → Rooted l id m → Rooted l id n → m ≡ n
same_height l id m n (root _ a e s) (root _ b f t) = refl
same_height l id m n (root _ a e s) (child _ p b k f t r) = let z = same_parent l id a b e f in cc
same_height l id m n (child _ p b k f t r) (root _ a e s) = let z = same_parent l id b a f e in cc
same_height l id m n (child _ p a j e s r) (child _ q b k f t u) =
    let z = same_parent l id a b e f in
    let same : p ≡ q = ground arith in
    ap suc (same_height l q j k (subst (λ p. Rooted l p j) same r) u)
