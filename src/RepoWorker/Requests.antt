-- ===== src/RepoWorker/Requests.antt =====
-- crates/ciacola-repo-worker/src/db.rs: the statements of the assignments, as the steps of one machine.
use ciacola.Base.{ℕ, String, Bool, Option, Result, ok, err}
use ciacola.RepoWorker.Assignment.{AssignmentState, CleanupReason, Assignment}
use ciacola.RepoWorker.Statements.{
  DbError, not_reserved, Table, set_base, abandon_reservation, set_phase, set_base_head, activate,
  mark_stale, terminal,
}
use ciacola.RepoWorker.Reserve.{Reservation, ReserveError, reserve, record_pre_resource_failure}
use ciacola.RepoWorker.Finish.{
  begin_finish, restore_after_busy, begin_publication, record_branch_pushed, publication_failed,
  GhPr, record_pr_observation,
}

pub data Request : Type 0 where
  reserved : Bool → Reservation → ℕ → Request
  failed_before_resources : String → String → String → ℕ → Request
  base_resolved : String → String → ℕ → Request
  abandoned : String → Request
  phase_reached : String → String → ℕ → Request
  worktree_ready : String → String → ℕ → Request
  activated : String → String → String → ℕ → Request
  went_stale : String → String → String → ℕ → Request
  ended : String → AssignmentState → String → Option String → ℕ → Request
  finish_began : Assignment → Bool → Option String → Option CleanupReason → ℕ → Request
  restored : Assignment → ℕ → Request
  publication_began : String → String → ℕ → Request
  pushed : String → String → ℕ → Request
  not_published : String → String → ℕ → Request
  pr_observed : String → GhPr → Option String → ℕ → Request

-- the table after a reservation, which may have found the one that is there
abbrev pub reserved_table : Result ReserveError (Table × Assignment × Bool) → Result DbError Table
reserved_table (ok (table, a, created)) = ok table
reserved_table (err e) = err not_reserved

-- the table of an answer that has a flag beside it
abbrev pub table_of : Result DbError (Table × Bool) → Result DbError Table
table_of (ok (table, done)) = ok table
table_of (err e) = err e

unfoldable pub perform : Request → Table → Result DbError Table
perform (reserved branch_is_valid r now) table =
    reserved_table (reserve branch_is_valid r now table)
perform (failed_before_resources id phase error now) table =
    record_pre_resource_failure id phase error now table
perform (base_resolved id base now) table = set_base id base now table
perform (abandoned id) table = ok (abandon_reservation id table).0
perform (phase_reached id phase now) table = set_phase id phase now table
perform (worktree_ready id head now) table = set_base_head id head now table
perform (activated id agent_id head now) table = activate id agent_id head now table
perform (went_stale id phase error now) table = mark_stale id phase error now table
perform (ended id state phase error now) table = terminal id state phase error now table
perform (finish_began a keep head reason now) table =
    table_of (begin_finish a keep head reason now table)
perform (restored a now) table = restore_after_busy a now table
perform (publication_began id head now) table = begin_publication id head now table
perform (pushed id head now) table = record_branch_pushed id head now table
perform (not_published id error now) table = publication_failed id error now table
perform (pr_observed id pr problem now) table = record_pr_observation id pr problem now table
