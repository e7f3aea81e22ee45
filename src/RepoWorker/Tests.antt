-- ===== src/RepoWorker/Tests.antt =====
-- Two assignments of one repository: one at work, and one that has been completed.
use ciacola.Base.{◌≡◌, refl, true, false, none, some, [], ◌∷◌, ok, err}
use ciacola.Base.Table.{update_where, count_where, find_where, exists_where}
use ciacola.Base.Text.{codes_eq, to_ascii_lowercase}
use ciacola.RepoWorker.Assignment.{
  AssignmentState, PublicationState, PrState, CleanupState, CleanupReason, Assignment, active,
  finishing, completed, state_as_str, parse_state, publication_as_str, parse_publication, pr_as_str,
  parse_pr, cleanup_as_str, parse_cleanup, reason_as_str, parse_reason,
}
use ciacola.RepoWorker.Statements.{
  owns_worktree, owns_branch, Table, is_assignment, no_clash, update_one, mark_stale,
}
use ciacola.RepoWorker.Finish.{
  begin_finish, start_finish, restore_after_busy, try_update, may_finish, finish_phase,
}
use ciacola.RepoWorker.Requests.{perform, went_stale}
use ciacola.RepoWorker.Reserve.{
  Reservation, collision, conflicts, collides, is_for, get_assignment, refusal, insert_reservation,
  reserve,
}
use ciacola.RepoWorker.Journey.{Journey}
use ciacola.RepoWorker.Guarded.{is_called, perform-Journey}
use ciacola.RepoWorker.Busy.{touched, restore_after_busy-begin_finish}
use ciacola.RepoWorker.Names.{parse-as_str}

abbrev working : Assignment
working = record {
  assignment_id = "w-1";
  repo = "ciacola/ciacola";
  issue = 12;
  state = active;
  phase = "ready";
  base = some "main";
  base_head = some "0a1b";
  slug = "fix-window";
  branch = "issue-12";
  branch_policy = "owned";
  worktree = "/work/issue-12";
  bare_path = "/bare/ciacola";
  agent_id = some "a";
  related_agent_ids = "a" ∷ [];
  spawned_by = none;
  expected_head = none;
  pushed_head = none;
  publication_state = PublicationState.unpublished;
  pr = none;
  pr_url = none;
  pr_state = none;
  pr_draft = none;
  pr_head = none;
  pr_base = none;
  pr_checked_unix = none;
  cleanup_state = CleanupState.nothing;
  cleanup_head = none;
  cleanup_reason = none;
  last_error = none;
  created_unix = 100;
  updated_unix = 200;
  terminal_unix = none;
}

abbrev done : Assignment
done = record working {
  assignment_id = "w-0";
  issue = 11;
  agent_id = some "b";
  state = completed;
  phase = "complete";
  cleanup_state = CleanupState.completed;
  terminal_unix = some 150;
}

abbrev table : Table
table = done ∷ working ∷ []

abbrev stale_table : Table
stale_table =
    done
    ∷ record working {
      state = AssignmentState.stale;
      phase = "agent_activation";
      last_error = some "the agent is gone";
      updated_unix = 300;
      terminal_unix = some 300;
    }
    ∷ []

staled :
    perform (went_stale "w-1" "agent_activation" "the agent is gone" 300) table ≡ ok stale_table
unfolding perform mark_stale update_one no_clash update_where is_assignment count_where
staled = refl

perform-Journey_example : Journey table stale_table
unfolding is_called
perform-Journey_example =
    perform-Journey (went_stale "w-1" "agent_activation" "the agent is gone" 300) table stale_table
      refl staled

abbrev removing_table : Table
removing_table =
    done
    ∷ record working {
      state = finishing;
      phase = "finishing_remove";
      cleanup_state = CleanupState.removing;
      cleanup_head = some "0a1b";
      cleanup_reason = some CleanupReason.no_changes;
      updated_unix = 300;
    }
    ∷ []

removal_began :
    begin_finish working false (some "0a1b") (some CleanupReason.no_changes) 300 table
    ≡ ok (removing_table, true)
unfolding begin_finish start_finish try_update no_clash may_finish finish_phase update_where
    is_assignment count_where codes_eq to_ascii_lowercase
removal_began = refl

restore_after_busy-begin_finish_example :
    restore_after_busy working 400 removing_table
    ≡ ok (update_where (is_assignment "w-1") (touched 400) table)
unfolding is_assignment no_clash count_where codes_eq to_ascii_lowercase
restore_after_busy-begin_finish_example =
    restore_after_busy-begin_finish working false (some "0a1b") (some CleanupReason.no_changes) 300
      400 table removing_table (λ h. cc, (λ h. refl, tt)) refl refl refl removal_began

parse-as_str_example :
    (parse_state (state_as_str finishing) ≡ some finishing)
    × (parse_publication (publication_as_str PublicationState.failed)
        ≡ some PublicationState.failed)
    × (parse_pr (pr_as_str PrState.merged) ≡ some PrState.merged)
    × (parse_cleanup (cleanup_as_str CleanupState.removing) ≡ some CleanupState.removing)
    × (parse_reason (reason_as_str CleanupReason.discarded) ≡ some CleanupReason.discarded)
parse-as_str_example =
    parse-as_str finishing PublicationState.failed PrState.merged CleanupState.removing
      CleanupReason.discarded

abbrev again : Reservation
again = record {
  assignment_id = "w-2";
  repo = "Ciacola/ciacola";
  issue = 12;
  base = none;
  slug = "fix-window-2";
  branch = "issue-12-2";
  branch_policy = "owned";
  worktree = "/work/issue-12-2";
  bare_path = "/bare/ciacola";
  spawned_by = none;
}

-- an issue has one assignment, whatever the case of its repository
reserved_again : reserve true again 400 table ≡ ok (table, working, false)
unfolding reserve get_assignment find_where is_for codes_eq to_ascii_lowercase
reserved_again = refl

-- a worktree that is owned is not reserved for another issue; the error may name an assignment that has
-- been completed, and owns nothing
taken_worktree :
    reserve true (record again { issue = 13; worktree = "/work/issue-12" }) 400 table
    ≡ err (collision "w-0" "ciacola/ciacola" 11)
unfolding reserve get_assignment find_where is_for codes_eq to_ascii_lowercase insert_reservation
    refusal collides exists_where conflicts owns_worktree owns_branch
taken_worktree = refl
