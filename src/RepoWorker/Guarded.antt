-- ===== src/RepoWorker/Guarded.antt =====
-- Every request that the table grants moves the assignments by the graph of `may_become`.
use ciacola.Base.{
  ◌||◌, ℕ, ltb, i64_max, Option-cases, String, ◌≡◌, refl, sym, subst, Bool, true, ◌&&◌, not, Option,
  none, some, [], ◌∷◌, arith, Bool-cases, inl, inr, Result, ok, err, is_none, ◌==◌,
}
use ciacola.Base.Table.{update_where, delete_where, exists_where}
use ciacola.RepoWorker.Assignment.{
  AssignmentState, preparing, active, finishing, retained, completed, stale, CleanupReason,
  Assignment,
}
use ciacola.RepoWorker.Statements.{
  DbError, Table, no_clash, in_state, is_preparing, is_finishing, abandon_reservation,
}
use ciacola.RepoWorker.Reserve.{
  Reservation, new_row, conflicts, get_assignment, insert_reservation, reserve,
  record_pre_resource_failure,
}
use ciacola.RepoWorker.Finish.{
  state_eq, may_finish, same_mode, try_update, start_finish, repeat_removal, begin_finish,
}
use ciacola.RepoWorker.Requests.{
  Request, perform, table_of, reserved_table, reserved, failed_before_resources, base_resolved,
  abandoned, phase_reached, worktree_ready, activated, went_stale, ended, finish_began, restored,
  publication_began, pushed, not_published, pr_observed,
}
use ciacola.RepoWorker.Journey.{
  preparing_of, may_become, may_become_refl, Moves, Moves-refl, Journey, Granted, written,
  untouched, removed, added, Journey-append, arrived, kept, dropped, Journey-refl,
  Journey-update_where,
}
use ciacola.RepoWorker.Journey.Steps.{
  state_eq-true, startable, Granted-set_base, Granted-set_phase, Granted-set_base_head,
  Granted-activate, Granted-mark_stale, Granted-terminal, Granted-restore,
  Granted-begin_publication, Granted-record_branch_pushed, Granted-publication_failed,
  Granted-record_pr_observation,
}

module _ (p : Assignment → Bool) (f : Assignment → Assignment) (t t' : Table) (done : Bool) where
  ok-try_update :
      try_update p f t ≡ ok (t', done)
      → (t' ≡ update_where p f t) × (no_clash (update_where p f t) (update_where p f t) ≡ true)
  unfolding try_update
  ok-try_update e = ground arith

  Granted-try_update :
      ((a : Assignment) → p a ≡ true → Moves a (f a))
      → try_update p f t ≡ ok (t', done)
      → Granted t t'
  Granted-try_update h e =
      let (same, free) = ok-try_update e in
      subst (Granted t) (sym same) (written _ (Journey-update_where p f h t) free)

module _ (a : Assignment) (keep : Bool) (head : Option String) (reason : Option CleanupReason)
    (now : ℕ) (t t' : Table) (done : Bool) where
  Granted-repeat_removal : repeat_removal a head reason now t ≡ ok (t', done) → Granted t t'
  unfolding repeat_removal
  Granted-repeat_removal =
      Granted-try_update _ _ t t' done
        (λ r h. record { state = may_become_refl r.state; same = refl; agent = inr refl })

  Granted-start_finish :
      may_finish a keep ≡ true
      → start_finish a keep head reason now t ≡ ok (t', done)
      → Granted t t'
  unfolding start_finish
  Granted-start_finish m = Granted-try_update _ _ t t' done (λ r h. record {
    state =
        subst (λ s. may_become s finishing ≡ true) (state_eq-true a.state r.state (ground arith))
          (startable a keep m);
    same = refl;
    agent = inr refl;
  })

  Granted-begin_finish : begin_finish a keep head reason now t ≡ ok (t', done) → Granted t t'
  unfolding begin_finish
  Granted-begin_finish e = elim (Bool-cases (is_finishing a.state)) [
    | inl i ↦ elim (Bool-cases (same_mode a keep && not keep)) [
      | inl r ↦ Granted-repeat_removal (ground arith)
      | inr r ↦ subst (Granted t) (ground arith) untouched
    ]
    | inr i ↦ elim (Bool-cases (may_finish a keep)) [
      | inl m ↦ Granted-start_finish m (ground arith)
      | inr m ↦ subst (Granted t) (ground arith) untouched
    ]
  ]

ok-table_of :
    (m : Result DbError (Table × Bool)) (t : Table)
    → table_of m ≡ ok t
    → (b : Bool) × (m ≡ ok (t, b))
ok-table_of (ok (u, b)) t e = (b, ground arith)
ok-table_of (err e) t h = cc

same_table : (t t' : Table) → ◌≡◌ {A = Result DbError Table} (ok t) (ok t') → t ≡ t'
same_table t t' e = cc

none_of : {A : Type 0} → (o : Option A) → is_none o ≡ true → o ≡ none
none_of none h = refl
none_of (some x) h = cc

Journey-abandon : (id : String) (t : Table) → Journey t (abandon_reservation id t).0
unfolding abandon_reservation delete_where
Journey-abandon id [] = arrived
Journey-abandon id (a ∷ t) =
    elim (Bool-cases (in_state id is_preparing a && a.phase == "reserved" && is_none a.agent_id)) [
      | inl e ↦ rw e (
          dropped a t _ (preparing_of a.state (ground arith)) (none_of a.agent_id (ground arith))
            (Journey-abandon id t))
      | inr e ↦ rw e (kept a a t _ (Moves-refl a) (Journey-abandon id t))
    ]

Journey-Granted : (t t' : Table) → Granted t t' → Journey t t'
Journey-Granted t t' (written _ j free) = j
Journey-Granted t t' (added a s n free) = Journey-append a t s n
Journey-Granted t t' untouched = Journey-refl t
Journey-Granted t t' (removed id) = Journey-abandon id t

module _ (r : Reservation) (now : ℕ) (t t' : Table) where
  Granted-insert_reservation : reserved_table (insert_reservation r now t) ≡ ok t' → Granted t t'
  unfolding insert_reservation
  Granted-insert_reservation e = elim (Bool-cases (exists_where (conflicts (new_row r now)) t)) [
    | inr free ↦
        let z = rw free at e in
        subst (Granted t) (same_table _ t' z) (added (new_row r now) refl refl free)
    | inl taken ↦ elim (Option-cases (get_assignment r.repo r.issue t)) [
      | inl n ↦ let z = rw (taken, n) at e in cc
      | inr (a, n) ↦ let z = rw (taken, n) at e in subst (Granted t) (same_table t t' z) untouched
    ]
  ]

  Granted-reserve : (valid : Bool) → reserved_table (reserve valid r now t) ≡ ok t' → Granted t t'
  unfolding reserve
  Granted-reserve valid e = elim (Bool-cases (ltb i64_max r.issue)) [
    | inl far ↦ let z = rw far at e in cc
    | inr near ↦ elim (Option-cases (get_assignment r.repo r.issue t)) [
      | inr (a, n) ↦ let z = rw (near, n) at e in subst (Granted t) (same_table t t' z) untouched
      | inl n ↦ elim (Bool-cases valid) [
        | inr v ↦ let z = rw (near, n, v) at e in cc
        | inl v ↦ Granted-insert_reservation (rw (near, n, v) at e)
      ]
    ]
  ]

Granted-record_pre_resource_failure :
    (id phase error : String) (now : ℕ) (t t' : Table)
    → record_pre_resource_failure id phase error now t ≡ ok t'
    → Granted t t'
unfolding record_pre_resource_failure
Granted-record_pre_resource_failure id phase error now t t' e =
    elim (Bool-cases (abandon_reservation id t).1) [
      | inl d ↦ let z = rw d at e in subst (Granted t) (same_table _ t' z) (removed id)
      | inr d ↦ Granted-mark_stale t t' id phase error now (rw d at e)
    ]

-- what the tools pass to `terminal`
abbrev ends_finish : AssignmentState → Bool
ends_finish to = state_eq to retained || state_eq to completed

-- the requests that the tools make
unfoldable pub is_called : Request → Bool
is_called (ended id to phase error now) = ends_finish to
is_called (restored b now) = not (state_eq b.state preparing || state_eq b.state completed)
is_called _ = true

end_of_finish : (to : AssignmentState) → ends_finish to ≡ true → may_become finishing to ≡ true
unfolding may_become
end_of_finish preparing h = cc
end_of_finish active h = refl
end_of_finish finishing h = refl
end_of_finish retained h = refl
end_of_finish completed h = refl
end_of_finish stale h = refl

start_of_finish :
    (s : AssignmentState)
    → not (state_eq s preparing || state_eq s completed) ≡ true
    → may_become finishing s ≡ true
unfolding may_become
start_of_finish preparing h = cc
start_of_finish active h = refl
start_of_finish finishing h = refl
start_of_finish retained h = refl
start_of_finish completed h = refl
start_of_finish stale h = refl

perform-Granted :
    (r : Request) (t t' : Table) → is_called r ≡ true → perform r t ≡ ok t' → Granted t t'
unfolding perform is_called
perform-Granted (reserved valid r now) t t' c e = Granted-reserve r now t t' valid e
perform-Granted (failed_before_resources id phase error now) t t' c e =
    Granted-record_pre_resource_failure id phase error now t t' e
perform-Granted (base_resolved id base now) t t' c e = Granted-set_base t t' id base now e
perform-Granted (abandoned id) t t' c e = subst (Granted t) (ground arith) (removed id)
perform-Granted (phase_reached id phase now) t t' c e = Granted-set_phase t t' id phase now e
perform-Granted (worktree_ready id head now) t t' c e = Granted-set_base_head t t' id head now e
perform-Granted (activated id agent_id head now) t t' c e =
    Granted-activate t t' id agent_id head now e
perform-Granted (went_stale id phase error now) t t' c e =
    Granted-mark_stale t t' id phase error now e
perform-Granted (ended id to phase error now) t t' c e =
    Granted-terminal t t' id to phase error now (end_of_finish to c) e
perform-Granted (finish_began a keep head reason now) t t' c e =
    let (b, h) = ok-table_of _ t' e in Granted-begin_finish a keep head reason now t t' b h
perform-Granted (restored b now) t t' c e = Granted-restore t t' b now (start_of_finish b.state c) e
perform-Granted (publication_began id head now) t t' c e =
    Granted-begin_publication t t' id head now e
perform-Granted (pushed id head now) t t' c e = Granted-record_branch_pushed t t' id head now e
perform-Granted (not_published id error now) t t' c e =
    Granted-publication_failed t t' id error now e
perform-Granted (pr_observed id pr problem now) t t' c e =
    Granted-record_pr_observation t t' id pr problem now e

-- Whatever the tools ask of the table and it grants, each assignment keeps its id, repository, issue,
-- branch, worktree and bare repository, and moves by the graph of `may_become`: one that is completed is
-- never reopened, none goes back to preparation, and only one that is being finished is completed or
-- retained. It keeps its agent too, except where it goes from preparation to activity, and has an agent
-- then. A row goes only while it is in preparation and has no agent, and a new one, which comes last, is
-- in preparation and has no agent. (The tools end a finish only as retained or completed, and take one
-- back only to a state that is neither preparation nor completion.)
pub perform-Journey :
    (r : Request) (t t' : Table) → is_called r ≡ true → perform r t ≡ ok t' → Journey t t'
perform-Journey r t t' c e = Journey-Granted t t' (perform-Granted r t t' c e)
