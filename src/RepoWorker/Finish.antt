-- ===== src/RepoWorker/Finish.antt =====
-- crates/ciacola-repo-worker/src/db.rs: how an assignment is finished, and published. `begin_finish` is
-- given the row that its caller has read.
use ciacola.Base.{
  ℕ, String, ◌==◌, Bool, true, false, not, ◌&&◌, ◌||◌, Option, none, some, if◌then◌else◌, is_none,
  is_some, Result, ok, err,
}
use ciacola.Base.Table.{update_where, one_row}
use ciacola.Recovery.Orphans.{starts_with}
use ciacola.RepoWorker.Assignment.{
  AssignmentState, preparing, active, finishing, stale, PublicationState, publishing, published,
  PrState, CleanupState, nothing, retaining, removing, CleanupReason, Assignment,
}
use ciacola.RepoWorker.Statements.{
  DbError, index_refused, Table, no_clash, text_is, update_one, is_assignment, in_state,
  is_finishing, is_publishable,
}

abbrev pub state_eq : AssignmentState → AssignmentState → Bool
state_eq preparing preparing = true
state_eq active active = true
state_eq finishing finishing = true
state_eq AssignmentState.retained AssignmentState.retained = true
state_eq AssignmentState.completed AssignmentState.completed = true
state_eq stale stale = true
state_eq _ _ = false

abbrev is_cleanup_failed : CleanupState → Bool
is_cleanup_failed nothing = false
is_cleanup_failed retaining = false
is_cleanup_failed CleanupState.retained = false
is_cleanup_failed removing = false
is_cleanup_failed CleanupState.completed = false
is_cleanup_failed CleanupState.failed = true

unfoldable pub finish_phase : Assignment → Bool → String
finish_phase a keep =
    if keep
    then "finishing_keep"
    else if state_eq a.state AssignmentState.retained
        || (state_eq a.state stale
            && (a.phase == "finishing_remove_retained"
                || a.phase == "finish_terminal_remove_retained"))
    then "finishing_remove_retained"
    else if state_eq a.state stale
    then "finishing_remove_stale"
    else "finishing_remove"

unfoldable pub same_mode : Assignment → Bool → Bool
same_mode a keep =
    if keep
    then a.phase == "finishing_keep"
    else a.phase == "finishing_remove"
      || a.phase == "finishing_remove_retained"
      || a.phase == "finishing_remove_stale"

unfoldable pub may_finish : Assignment → Bool → Bool
unfolding starts_with
may_finish a keep =
    if keep
    then state_eq a.state active
      || (state_eq a.state stale
          && (a.phase == "finishing_keep"
              || a.phase == "finish_terminal_keep"
              || (is_cleanup_failed a.cleanup_state
                  && is_none a.cleanup_reason
                  && starts_with "finish_agent_" a.phase)))
    else state_eq a.state active
      || state_eq a.state AssignmentState.retained
      || state_eq a.state stale

-- UPDATE …, with the answer `rows_affected() == 1`
unfoldable pub try_update :
    (Assignment → Bool) → (Assignment → Assignment) → Table → Result DbError (Table × Bool)
unfolding no_clash
try_update p f table =
    let table' = update_where p f table in
    if not (no_clash table' table') then err index_refused else ok (table', one_row p table)

-- the second attempt at a removal that has begun
unfoldable pub repeat_removal :
    Assignment → Option String → Option CleanupReason → ℕ → Table → Result DbError (Table × Bool)
unfolding try_update
repeat_removal a head reason now =
    try_update (λ (r : Assignment). in_state a.assignment_id is_finishing r && r.phase == a.phase)
      (λ (r : Assignment). record r {
        cleanup_state = removing;
        cleanup_head = head;
        cleanup_reason = reason;
        last_error = none;
        updated_unix = now;
      })

-- the first attempt
unfoldable pub start_finish :
    Assignment
    → Bool
    → Option String
    → Option CleanupReason
    → ℕ
    → Table
    → Result DbError (Table × Bool)
unfolding try_update finish_phase
start_finish a keep head reason now =
    try_update (in_state a.assignment_id (state_eq a.state)) (λ (r : Assignment). record r {
      state = finishing;
      phase = finish_phase a keep;
      last_error = none;
      cleanup_state = if keep then retaining else removing;
      cleanup_head = head;
      cleanup_reason = reason;
      updated_unix = now;
    })

-- `begin_finish`
unfoldable pub begin_finish :
    Assignment
    → Bool
    → Option String
    → Option CleanupReason
    → ℕ
    → Table
    → Result DbError (Table × Bool)
unfolding same_mode may_finish repeat_removal start_finish
begin_finish a keep head reason now table =
    if is_finishing a.state
    then if not (same_mode a keep)
      then ok (table, false)
      else if keep
      then ok (table, true)
      else repeat_removal a head reason now table
    else if not (may_finish a keep)
    then ok (table, false)
    else start_finish a keep head reason now table

-- `restore_after_busy`
unfoldable pub restore_after_busy : Assignment → ℕ → Table → Result DbError Table
restore_after_busy a now = update_one (in_state a.assignment_id is_finishing) (λ (r : Assignment).
    record r {
      state = a.state;
      phase = a.phase;
      last_error = a.last_error;
      cleanup_state = a.cleanup_state;
      cleanup_head = a.cleanup_head;
      cleanup_reason = a.cleanup_reason;
      updated_unix = now;
    })

unfoldable pub begin_publication : String → String → ℕ → Table → Result DbError Table
begin_publication id expected_head now =
    update_one (in_state id is_publishable) (λ (a : Assignment). record a {
      expected_head = some expected_head;
      publication_state = publishing;
      phase = "publishing";
      last_error = none;
      updated_unix = now;
    })

abbrev is_publishing : PublicationState → Bool
is_publishing PublicationState.unpublished = false
is_publishing publishing = true
is_publishing published = false
is_publishing PublicationState.failed = false

unfoldable pub record_branch_pushed : String → String → ℕ → Table → Result DbError Table
record_branch_pushed id expected_head now =
    update_one
      (λ (a : Assignment).
        in_state id is_publishable a
        && is_publishing a.publication_state
        && text_is expected_head a.expected_head)
      (λ (a : Assignment). record a {
        phase = "branch_pushed";
        pushed_head = some expected_head;
        updated_unix = now;
      })

unfoldable pub publication_failed : String → String → ℕ → Table → Result DbError Table
publication_failed id error now = update_one (is_assignment id) (λ (a : Assignment). record a {
  publication_state = PublicationState.failed;
  phase = "publication_failed";
  last_error = some error;
  updated_unix = now;
})

-- a pull request as the forge reports it, in crates/ciacola-repo-worker/src/journey.rs
pub record GhPr : Type 0 where
  pub number : ℕ
  pub url : String
  pub state : PrState
  pub is_draft : Bool
  pub head_ref_name : String
  pub head_ref_oid : String
  pub base_ref_name : String
  pub is_cross_repository : Bool
  pub merged_at : Option String

abbrev pr_phase : PrState → String
pr_phase PrState.opened = "pr_open"
pr_phase PrState.closed = "pr_closed"
pr_phase PrState.merged = "pr_merged"

abbrev observed_phase : Option String → GhPr → Assignment → String
observed_phase problem pr a =
    if is_publishable a.state
    then if is_some problem then "publication_failed" else pr_phase pr.state
    else a.phase

-- `record_pr_observation`, of a number that fits the column and a state that was parsed
unfoldable pub record_pr_observation :
    String → GhPr → Option String → ℕ → Table → Result DbError Table
record_pr_observation id pr problem now = update_one (is_assignment id) (λ (a : Assignment).
    record a {
      pr = some pr.number;
      pr_url = some pr.url;
      pr_state = some pr.state;
      pr_draft = some pr.is_draft;
      pr_head = some pr.head_ref_oid;
      pr_base = some pr.base_ref_name;
      pr_checked_unix = some now;
      publication_state = if is_none problem then published else PublicationState.failed;
      phase = observed_phase problem pr a;
      last_error = if is_publishable a.state then problem else a.last_error;
      updated_unix = now;
    })
