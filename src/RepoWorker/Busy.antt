-- ===== src/RepoWorker/Busy.antt =====
-- A removal that has begun and finds the agent busy is taken back.
use ciacola.Base.{
  ℕ, String, ◌≡◌, refl, Bool, true, false, Option, none, some, [], ◌∷◌, arith, Bool-cases, inl, inr,
  ok, All, if◌then◌else◌, ==_self,
}
use ciacola.Base.Table.{update_where, count_where, one_row, count-update_where_other}
use ciacola.RepoWorker.Assignment.{
  AssignmentState, CleanupReason, CleanupState, Assignment, preparing, active, finishing, retained,
  completed, stale,
}
use ciacola.RepoWorker.Statements.{
  Table, no_clash, update_one, is_assignment, in_state, is_finishing, owns_worktree, owns_branch,
  has_agent,
}
use ciacola.RepoWorker.Finish.{
  state_eq, try_update, start_finish, begin_finish, restore_after_busy, finish_phase,
}

-- every row that has the id is the row
abbrev pub IsRow : Assignment → Table → Type 0
IsRow a t = All (λ r. is_assignment a.assignment_id r ≡ true → r ≡ a) t

unfoldable pub touched : ℕ → Assignment → Assignment
touched now r = record r { updated_unix = now }

state_eq_refl : (s : AssignmentState) → state_eq s s ≡ true
state_eq_refl preparing = refl
state_eq_refl active = refl
state_eq_refl finishing = refl
state_eq_refl retained = refl
state_eq_refl completed = refl
state_eq_refl stale = refl

module _ (p : Assignment → Bool) (now : ℕ) where
  worktrees :
      (w : String) (t : Table)
      → count_where (owns_worktree w) (update_where p (touched now) t)
        ≡ count_where (owns_worktree w) t
  unfolding owns_worktree touched
  worktrees w t = count-update_where_other p (touched now) (owns_worktree w) (λ x k. refl) t

  branches :
      (r b : String) (t : Table)
      → count_where (owns_branch r b) (update_where p (touched now) t)
        ≡ count_where (owns_branch r b) t
  unfolding owns_branch touched
  branches r b t = count-update_where_other p (touched now) (owns_branch r b) (λ x k. refl) t

  agents :
      (o : Option String) (t : Table)
      → count_where (has_agent o) (update_where p (touched now) t) ≡ count_where (has_agent o) t
  unfolding has_agent touched
  agents none t = count-update_where_other p (touched now) (has_agent none) (λ x k. refl) t
  agents (some id) t =
      count-update_where_other p (touched now) (has_agent (some id)) (λ x k. refl) t

  no_clash-touched :
      (t u : Table)
      → no_clash (update_where p (touched now) t) (update_where p (touched now) u) ≡ no_clash t u
  unfolding no_clash update_where touched
  no_clash-touched t [] = refl
  no_clash-touched t (a ∷ u) = elim (Bool-cases (p a)) [
    | inl e ↦
        rw
          (
            e,
            worktrees a.worktree t,
            branches a.repo a.branch t,
            agents a.agent_id t,
            no_clash-touched t u,
          )
          refl
    | inr e ↦
        rw
          (
            e,
            worktrees a.worktree t,
            branches a.repo a.branch t,
            agents a.agent_id t,
            no_clash-touched t u,
          )
          refl
  ]

module _ (a : Assignment) (keep : Bool) (head : Option String) (reason : Option CleanupReason)
    (now later : ℕ) where
  -- the row that `start_finish` writes, and the one that `restore_after_busy` writes
  abbrev begun : Assignment → Assignment
  begun r = record r {
    state = finishing;
    phase = finish_phase a keep;
    last_error = none;
    cleanup_state = if keep then CleanupState.retaining else CleanupState.removing;
    cleanup_head = head;
    cleanup_reason = reason;
    updated_unix = now;
  }

  abbrev taken_back : Assignment → Assignment
  taken_back r = record r {
    state = a.state;
    phase = a.phase;
    last_error = a.last_error;
    cleanup_state = a.cleanup_state;
    cleanup_head = a.cleanup_head;
    cleanup_reason = a.cleanup_reason;
    updated_unix = later;
  }

  abbrev started : Table → Table
  started t = update_where (in_state a.assignment_id (state_eq a.state)) begun t

  taken_back-begun : taken_back (begun a) ≡ touched later a
  unfolding touched
  taken_back-begun = refl

  self : is_assignment a.assignment_id a ≡ true
  unfolding is_assignment
  self = ==_self a.assignment_id

  chosen : in_state a.assignment_id (state_eq a.state) a ≡ true
  chosen = ground (arith, self, state_eq_refl a.state)

  begun_finishing : in_state a.assignment_id is_finishing (begun a) ≡ true
  unfolding is_assignment
  begun_finishing = ground (arith, ==_self a.assignment_id)

  others :
      (q : AssignmentState → Bool) (r : Assignment)
      → is_assignment a.assignment_id r ≡ false
      → in_state a.assignment_id q r ≡ false
  others q r e = ground arith

  restored_rows :
      (t : Table)
      → IsRow a t
      → update_where (in_state a.assignment_id is_finishing) taken_back (started t)
        ≡ update_where (is_assignment a.assignment_id) (touched later) t
  unfolding update_where
  restored_rows [] h = refl
  restored_rows (r ∷ t) h = elim (Bool-cases (is_assignment a.assignment_id r)) [
    | inl e ↦ rw (h.0 e, chosen, begun_finishing, self, taken_back-begun, restored_rows t h.1) refl
    | inr e ↦
        rw (others (state_eq a.state) r e, others is_finishing r e, e, restored_rows t h.1) refl
  ]

  rows_finishing :
      (t : Table)
      → IsRow a t
      → count_where (in_state a.assignment_id is_finishing) (started t)
        ≡ count_where (is_assignment a.assignment_id) t
  unfolding update_where count_where
  rows_finishing [] h = refl
  rows_finishing (r ∷ t) h = elim (Bool-cases (is_assignment a.assignment_id r)) [
    | inl e ↦ rw (h.0 e, chosen, begun_finishing, self, rows_finishing t h.1) refl
    | inr e ↦
        rw (others (state_eq a.state) r e, others is_finishing r e, e, rows_finishing t h.1) refl
  ]

  after_start :
      (t t' : Table)
      → is_finishing a.state ≡ false
      → begin_finish a keep head reason now t ≡ ok (t', true)
      → t' ≡ started t
  unfolding begin_finish start_finish try_update
  after_start t t' i e = ground arith

  -- An assignment that is the one row of its id in a table that the indexes accept, and is not being
  -- finished: when a request to finish it is granted, `restore_after_busy` is granted too, and the
  -- table after it is the one before the request but for the row's `updated_unix`.
  pub restore_after_busy-begin_finish :
      (t t' : Table)
      → IsRow a t
      → one_row (is_assignment a.assignment_id) t ≡ true
      → no_clash t t ≡ true
      → is_finishing a.state ≡ false
      → begin_finish a keep head reason now t ≡ ok (t', true)
      → restore_after_busy a later t'
        ≡ ok (update_where (is_assignment a.assignment_id) (touched later) t)
  unfolding restore_after_busy update_one
  restore_after_busy-begin_finish t t' rows one free i e =
      rw
        (
          after_start t t' i e,
          restored_rows t rows,
          no_clash-touched (is_assignment a.assignment_id) later t t,
          free,
          rows_finishing t rows,
          one,
        )
        refl
