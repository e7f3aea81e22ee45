-- ===== src/RepoWorker/Journey.antt =====
-- How an assignment may move, whatever is asked of the table.
pub mod Steps
use ciacola.Base.{
  ◌≢◌, ◌⊎◌, ℕ, String, ◌≡◌, refl, sym, subst, ◌||◌, Bool, true, false, Option, none, [], ◌∷◌, ◌++◌,
  arith, Bool-cases, inl, inr, ok, not,
}
use ciacola.Base.Table.{update_where, exists_where}
use ciacola.RepoWorker.Assignment.{
  AssignmentState, preparing, active, finishing, retained, completed, stale, Assignment,
}
use ciacola.RepoWorker.Statements.{
  Table, no_clash, update_one, is_owner, is_preparing, is_finishing, set_base, abandon_reservation,
  set_phase, set_base_head, activate, mark_stale, terminal,
}
use ciacola.RepoWorker.Reserve.{conflicts}
use ciacola.RepoWorker.Finish.{
  state_eq, may_finish, restore_after_busy, begin_publication, record_branch_pushed,
  publication_failed, GhPr, record_pr_observation,
}

-- whether an assignment of the first state may be one of the second after a statement
unfoldable pub may_become : AssignmentState → AssignmentState → Bool
may_become preparing preparing = true
may_become preparing active = true
may_become preparing stale = true
may_become active active = true
may_become active finishing = true
may_become active stale = true
may_become retained retained = true
may_become retained finishing = true
may_become retained stale = true
may_become stale stale = true
may_become stale finishing = true
may_become completed completed = true
may_become finishing active = true
may_become finishing finishing = true
may_become finishing retained = true
may_become finishing completed = true
may_become finishing stale = true
may_become _ _ = false

-- what names an assignment and what it owns
abbrev pub identity_of : Assignment → String × String × ℕ × String × String × String
identity_of a = (a.assignment_id, a.repo, a.issue, a.branch, a.worktree, a.bare_path)

-- A row before a statement and after it. Its agent is set only where it goes from preparation to
-- activity.
pub record Moves (a a' : Assignment) : Type 0 where
  pub state : may_become a.state a'.state ≡ true
  pub same : identity_of a' ≡ identity_of a
  pub agent :
      ((a.state ≡ preparing) × (a'.state ≡ active) × (a'.agent_id ≢ none))
      ⊎ (a'.agent_id ≡ a.agent_id)

pub data Journey : Table → Table → Type 0 where
  arrived : Journey [] []
  kept :
      (a a' : Assignment) (rest rest' : Table)
      → Moves a a'
      → Journey rest rest'
      → Journey (a ∷ rest) (a' ∷ rest')
  dropped :
      (a : Assignment) (rest rest' : Table)
      → a.state ≡ preparing
      → a.agent_id ≡ none
      → Journey rest rest'
      → Journey (a ∷ rest) rest'
  joined :
      (a : Assignment) (rest' : Table)
      → a.state ≡ preparing
      → a.agent_id ≡ none
      → Journey [] rest'
      → Journey [] (a ∷ rest')

-- what a statement that was granted has made of the table
pub data Granted (t : Table) : Table → Type 0 where
  written : (t' : Table) → Journey t t' → no_clash t' t' ≡ true → Granted t t'
  untouched : Granted t t
  added :
      (a : Assignment)
      → a.state ≡ preparing
      → a.agent_id ≡ none
      → exists_where (conflicts a) t ≡ false
      → Granted t (t ++ a ∷ [])
  removed : (id : String) → Granted t (abandon_reservation id t).0

pub may_become_refl : (s : AssignmentState) → may_become s s ≡ true
unfolding may_become
may_become_refl preparing = refl
may_become_refl active = refl
may_become_refl finishing = refl
may_become_refl retained = refl
may_become_refl completed = refl
may_become_refl stale = refl

pub preparing_of : (s : AssignmentState) → is_preparing s ≡ true → s ≡ preparing
preparing_of preparing h = refl
preparing_of _ h = cc

pub Moves-refl : (a : Assignment) → Moves a a
Moves-refl a = record { state = may_become_refl a.state; same = refl; agent = inr refl }

pub Journey-refl : (rest : Table) → Journey rest rest
Journey-refl [] = arrived
Journey-refl (a ∷ rest) = kept a a rest rest (Moves-refl a) (Journey-refl rest)

pub Journey-append :
    (a : Assignment) (rest : Table)
    → a.state ≡ preparing
    → a.agent_id ≡ none
    → Journey rest (rest ++ a ∷ [])
Journey-append a [] s n = joined a [] s n arrived
Journey-append a (b ∷ rest) s n = kept b b rest _ (Moves-refl b) (Journey-append a rest s n)

module _ (p : Assignment → Bool) (f : Assignment → Assignment)
    (h : (a : Assignment) → p a ≡ true → Moves a (f a)) where
  pub Journey-update_where : (rest : Table) → Journey rest (update_where p f rest)
  unfolding update_where
  Journey-update_where [] = arrived
  Journey-update_where (a ∷ rest) = elim (Bool-cases (p a)) [
    | inl e ↦ rw e (kept _ _ _ _ (h a e) (Journey-update_where rest))
    | inr e ↦ rw e (kept _ _ _ _ (Moves-refl a) (Journey-update_where rest))
  ]

module _ (p : Assignment → Bool) (f : Assignment → Assignment) (t t' : Table) where
  pub ok-update_one :
      update_one p f t ≡ ok t'
      → (t' ≡ update_where p f t) × (no_clash (update_where p f t) (update_where p f t) ≡ true)
  unfolding update_one
  ok-update_one e = ground arith

  pub Granted-update_one :
      ((a : Assignment) → p a ≡ true → Moves a (f a)) → update_one p f t ≡ ok t' → Granted t t'
  Granted-update_one h e =
      let (same, free) = ok-update_one e in
      subst (Granted t) (sym same) (written _ (Journey-update_where p f h t) free)
