-- ===== src/RepoWorker/Assignment.antt =====
-- crates/ciacola-repo-worker/src/assignment.rs: the states of an assignment, and its row. An issue or a
-- pull request number is natural; the JSON list of related agents is the list.
use ciacola.Base.{ℕ, String, ◌==◌, Bool, Option, none, some, List, if◌then◌else◌}

pub data AssignmentState : Type 0 where
  preparing active finishing retained completed stale : AssignmentState

pub data PublicationState : Type 0 where
  unpublished publishing published failed : PublicationState

pub data PrState : Type 0 where
  opened closed merged : PrState

pub data CleanupState : Type 0 where
  nothing retaining retained removing completed failed : CleanupState

pub data CleanupReason : Type 0 where
  absent no_changes merged discarded : CleanupReason

unfoldable pub state_as_str : AssignmentState → String
state_as_str preparing = "preparing"
state_as_str active = "active"
state_as_str finishing = "finishing"
state_as_str AssignmentState.retained = "retained"
state_as_str AssignmentState.completed = "completed"
state_as_str stale = "stale"

unfoldable pub parse_state : String → Option AssignmentState
parse_state value =
    if value == "preparing"
    then some preparing
    else if value == "active"
    then some active
    else if value == "finishing"
    then some finishing
    else if value == "retained"
    then some AssignmentState.retained
    else if value == "completed"
    then some AssignmentState.completed
    else if value == "stale"
    then some stale
    else none

unfoldable pub publication_as_str : PublicationState → String
publication_as_str unpublished = "unpublished"
publication_as_str publishing = "publishing"
publication_as_str published = "published"
publication_as_str PublicationState.failed = "failed"

unfoldable pub parse_publication : String → Option PublicationState
parse_publication value =
    if value == "unpublished"
    then some unpublished
    else if value == "publishing"
    then some publishing
    else if value == "published"
    then some published
    else if value == "failed"
    then some PublicationState.failed
    else none

unfoldable pub pr_as_str : PrState → String
pr_as_str opened = "open"
pr_as_str closed = "closed"
pr_as_str PrState.merged = "merged"

unfoldable pub parse_pr : String → Option PrState
parse_pr value =
    if value == "open"
    then some opened
    else if value == "closed"
    then some closed
    else if value == "merged"
    then some PrState.merged
    else none

unfoldable pub cleanup_as_str : CleanupState → String
cleanup_as_str nothing = "none"
cleanup_as_str retaining = "retaining"
cleanup_as_str CleanupState.retained = "retained"
cleanup_as_str removing = "removing"
cleanup_as_str CleanupState.completed = "completed"
cleanup_as_str CleanupState.failed = "failed"

unfoldable pub parse_cleanup : String → Option CleanupState
parse_cleanup value =
    if value == "none"
    then some nothing
    else if value == "retaining"
    then some retaining
    else if value == "retained"
    then some CleanupState.retained
    else if value == "removing"
    then some removing
    else if value == "completed"
    then some CleanupState.completed
    else if value == "failed"
    then some CleanupState.failed
    else none

unfoldable pub reason_as_str : CleanupReason → String
reason_as_str absent = "absent"
reason_as_str no_changes = "no_changes"
reason_as_str CleanupReason.merged = "merged"
reason_as_str discarded = "discarded"

unfoldable pub parse_reason : String → Option CleanupReason
parse_reason value =
    if value == "absent"
    then some absent
    else if value == "no_changes"
    then some no_changes
    else if value == "merged"
    then some CleanupReason.merged
    else if value == "discarded"
    then some discarded
    else none

pub record Assignment : Type 0 where
  pub assignment_id : String
  pub repo : String
  pub issue : ℕ
  pub state : AssignmentState
  pub phase : String
  pub base : Option String
  pub base_head : Option String
  pub slug : String
  pub branch : String
  pub branch_policy : String
  pub worktree : String
  pub bare_path : String
  pub agent_id : Option String
  pub related_agent_ids : List String
  pub spawned_by : Option String
  pub expected_head : Option String
  pub pushed_head : Option String
  pub publication_state : PublicationState
  pub pr : Option ℕ
  pub pr_url : Option String
  pub pr_state : Option PrState
  pub pr_draft : Option Bool
  pub pr_head : Option String
  pub pr_base : Option String
  pub pr_checked_unix : Option ℕ
  pub cleanup_state : CleanupState
  pub cleanup_head : Option String
  pub cleanup_reason : Option CleanupReason
  pub last_error : Option String
  pub created_unix : ℕ
  pub updated_unix : ℕ
  pub terminal_unix : Option ℕ
