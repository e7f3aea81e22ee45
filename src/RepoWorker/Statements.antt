-- ===== src/RepoWorker/Statements.antt =====
-- crates/ciacola-repo-worker/src/db.rs: the statements that move an assignment. One that finds no row,
-- or that an index of the table refuses, is an error and writes nothing. The clock is an argument.
use ciacola.Base.{
  ℕ, String, ◌==◌, Bool, true, false, not, ◌&&◌, ◌||◌, Option, none, some, List, [], ◌∷◌,
  if◌then◌else◌, is_none, leb, Result, ok, err,
}
use ciacola.Base.Text.{to_ascii_lowercase, codes_eq}
use ciacola.Base.Table.{update_where, count_where, delete_where, one_row}
use ciacola.RepoWorker.Assignment.{
  AssignmentState, preparing, active, finishing, stale, CleanupState, nothing, retaining, removing,
  Assignment,
}

pub data DbError : Type 0 where
  lost_row index_refused not_reserved : DbError

abbrev pub Table : Type 0
Table = List Assignment

-- state IN ('preparing', 'active', 'finishing', 'retained')
abbrev pub is_owner : AssignmentState → Bool
is_owner preparing = true
is_owner active = true
is_owner finishing = true
is_owner AssignmentState.retained = true
is_owner AssignmentState.completed = false
is_owner stale = false

abbrev pub is_preparing : AssignmentState → Bool
is_preparing preparing = true
is_preparing active = false
is_preparing finishing = false
is_preparing AssignmentState.retained = false
is_preparing AssignmentState.completed = false
is_preparing stale = false

abbrev pub is_finishing : AssignmentState → Bool
is_finishing preparing = false
is_finishing active = false
is_finishing finishing = true
is_finishing AssignmentState.retained = false
is_finishing AssignmentState.completed = false
is_finishing stale = false

-- state IN ('active', 'retained')
abbrev pub is_publishable : AssignmentState → Bool
is_publishable preparing = false
is_publishable active = true
is_publishable finishing = false
is_publishable AssignmentState.retained = true
is_publishable AssignmentState.completed = false
is_publishable stale = false

-- assignment_id = ?1
unfoldable pub is_assignment : String → Assignment → Bool
is_assignment id a = a.assignment_id == id

-- a row that owns the worktree, or the branch of the repository, whose name has no case
unfoldable pub owns_worktree : String → Assignment → Bool
owns_worktree worktree a = is_owner a.state && a.worktree == worktree

unfoldable pub owns_branch : String → String → Assignment → Bool
owns_branch repo branch a =
    is_owner a.state
    && codes_eq (to_ascii_lowercase a.repo) (to_ascii_lowercase repo)
    && a.branch == branch

abbrev pub text_is : String → Option String → Bool
text_is s none = false
text_is s (some t) = t == s

-- a row that has the agent
unfoldable pub has_agent : Option String → Assignment → Bool
has_agent none a = false
has_agent (some id) a = text_is id a.agent_id

-- the unique indexes; the one of a repository and an issue is over columns that no UPDATE writes
unfoldable pub no_clash : Table → Table → Bool
unfolding owns_worktree owns_branch has_agent
no_clash table [] = true
no_clash table (a ∷ rest) =
    (not (is_owner a.state)
      || (leb (count_where (owns_worktree a.worktree) table) 1
          && leb (count_where (owns_branch a.repo a.branch) table) 1))
    && leb (count_where (has_agent a.agent_id) table) 1
    && no_clash table rest

-- UPDATE … and `rows_affected() != 1`
unfoldable pub update_one :
    (Assignment → Bool) → (Assignment → Assignment) → Table → Result DbError Table
unfolding no_clash
update_one p f table =
    let table' = update_where p f table in
    if not (no_clash table' table')
    then err index_refused
    else if one_row p table
    then ok table'
    else err lost_row

abbrev pub in_state : String → (AssignmentState → Bool) → Assignment → Bool
in_state id q a = is_assignment id a && q a.state

unfoldable pub set_base : String → String → ℕ → Table → Result DbError Table
set_base id base now =
    update_one (in_state id is_preparing) (λ (a : Assignment). record a {
      base = some base;
      phase = "base_resolved";
      updated_unix = now;
    })

unfoldable pub abandon_reservation : String → Table → Table × Bool
abandon_reservation id table =
    let p = λ (a : Assignment).
      in_state id is_preparing a && a.phase == "reserved" && is_none a.agent_id in
    (delete_where p table, one_row p table)

unfoldable pub set_phase : String → String → ℕ → Table → Result DbError Table
set_phase id phase now =
    update_one (in_state id is_preparing)
      (λ (a : Assignment). record a { phase = phase; updated_unix = now })

unfoldable pub set_base_head : String → String → ℕ → Table → Result DbError Table
set_base_head id base_head now = update_one (in_state id is_preparing) (λ (a : Assignment).
    record a { base_head = some base_head; phase = "worktree_ready"; updated_unix = now })

-- the activation, in crates/ciacola-repo-worker/src/tools.rs
unfoldable pub activate : String → String → String → ℕ → Table → Result DbError Table
activate id agent_id base_head now = update_one (in_state id is_preparing) (λ (a : Assignment).
    record a {
      state = active;
      phase = "ready";
      agent_id = some agent_id;
      related_agent_ids = agent_id ∷ [];
      base_head = some base_head;
      updated_unix = now;
    })

abbrev cleanup_pending : CleanupState → Bool
cleanup_pending nothing = false
cleanup_pending retaining = true
cleanup_pending CleanupState.retained = false
cleanup_pending removing = true
cleanup_pending CleanupState.completed = false
cleanup_pending CleanupState.failed = false

-- `stale`
unfoldable pub mark_stale : String → String → String → ℕ → Table → Result DbError Table
mark_stale id phase error now = update_one (in_state id is_owner) (λ (a : Assignment). record a {
  state = stale;
  phase = phase;
  last_error = some error;
  cleanup_state =
      if is_finishing a.state || cleanup_pending a.cleanup_state
      then CleanupState.failed
      else a.cleanup_state;
  updated_unix = now;
  terminal_unix = some now;
})

-- the CASE of `terminal`
abbrev cleanup_after : AssignmentState → CleanupState → CleanupState
cleanup_after AssignmentState.retained c = CleanupState.retained
cleanup_after AssignmentState.completed c = CleanupState.completed
cleanup_after preparing c = c
cleanup_after active c = c
cleanup_after finishing c = c
cleanup_after stale c = c

unfoldable pub terminal :
    String → AssignmentState → String → Option String → ℕ → Table → Result DbError Table
terminal id state phase error now = update_one (in_state id is_finishing) (λ (a : Assignment).
    record a {
      state = state;
      phase = phase;
      last_error = error;
      cleanup_state = cleanup_after state a.cleanup_state;
      updated_unix = now;
      terminal_unix = some now;
    })
