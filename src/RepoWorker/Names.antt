-- ===== src/RepoWorker/Names.antt =====
-- The words in which the columns of an assignment are stored.
use ciacola.Base.{◌≡◌, refl, some}
use ciacola.RepoWorker.Assignment.{
  AssignmentState, PublicationState, PrState, CleanupState, CleanupReason, state_as_str,
  parse_state, publication_as_str, parse_publication, pr_as_str, parse_pr, cleanup_as_str,
  parse_cleanup, reason_as_str, parse_reason,
}

parse_state-as_str : (x : AssignmentState) → parse_state (state_as_str x) ≡ some x
unfolding parse_state state_as_str
parse_state-as_str AssignmentState.preparing = refl
parse_state-as_str AssignmentState.active = refl
parse_state-as_str AssignmentState.finishing = refl
parse_state-as_str AssignmentState.retained = refl
parse_state-as_str AssignmentState.completed = refl
parse_state-as_str AssignmentState.stale = refl

parse_publication-as_str :
    (x : PublicationState) → parse_publication (publication_as_str x) ≡ some x
unfolding parse_publication publication_as_str
parse_publication-as_str PublicationState.unpublished = refl
parse_publication-as_str PublicationState.publishing = refl
parse_publication-as_str PublicationState.published = refl
parse_publication-as_str PublicationState.failed = refl

parse_pr-as_str : (x : PrState) → parse_pr (pr_as_str x) ≡ some x
unfolding parse_pr pr_as_str
parse_pr-as_str PrState.opened = refl
parse_pr-as_str PrState.closed = refl
parse_pr-as_str PrState.merged = refl

parse_cleanup-as_str : (x : CleanupState) → parse_cleanup (cleanup_as_str x) ≡ some x
unfolding parse_cleanup cleanup_as_str
parse_cleanup-as_str CleanupState.nothing = refl
parse_cleanup-as_str CleanupState.retaining = refl
parse_cleanup-as_str CleanupState.retained = refl
parse_cleanup-as_str CleanupState.removing = refl
parse_cleanup-as_str CleanupState.completed = refl
parse_cleanup-as_str CleanupState.failed = refl

parse_reason-as_str : (x : CleanupReason) → parse_reason (reason_as_str x) ≡ some x
unfolding parse_reason reason_as_str
parse_reason-as_str CleanupReason.absent = refl
parse_reason-as_str CleanupReason.no_changes = refl
parse_reason-as_str CleanupReason.merged = refl
parse_reason-as_str CleanupReason.discarded = refl

-- The word that is stored for a state of an assignment, a publication, a pull request or a cleanup, or
-- for the reason of a cleanup, is read back as that state or reason.
pub parse-as_str :
    (s : AssignmentState) (p : PublicationState) (r : PrState) (c : CleanupState)
    (w : CleanupReason)
    → (parse_state (state_as_str s) ≡ some s)
      × (parse_publication (publication_as_str p) ≡ some p)
      × (parse_pr (pr_as_str r) ≡ some r)
      × (parse_cleanup (cleanup_as_str c) ≡ some c)
      × (parse_reason (reason_as_str w) ≡ some w)
parse-as_str s p r c w = (
  parse_state-as_str s,
  parse_publication-as_str p,
  parse_pr-as_str r,
  parse_cleanup-as_str c,
  parse_reason-as_str w,
)
