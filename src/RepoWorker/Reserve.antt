-- ===== src/RepoWorker/Reserve.antt =====
-- crates/ciacola-repo-worker/src/db.rs: `get`, `get_by_agent`, `reserve` and `record_pre_resource_failure`.
-- The new id, the names and paths that `reserve` derives from it, and git's verdict on the branch name are
-- arguments.
use ciacola.Base.{
  ℕ, String, ◌==◌, Bool, true, false, not, ◌&&◌, ◌||◌, Option, none, some, [], ◌∷◌, ◌++◌,
  if◌then◌else◌, eqb, ltb, i64_max, Result, ok, err, ◌>>◌, refuse_if,
}
use ciacola.Base.Text.{to_ascii_lowercase, codes_eq}
use ciacola.Base.Table.{find_where, exists_where}
use ciacola.RepoWorker.Assignment.{preparing, PublicationState, CleanupState, Assignment}
use ciacola.RepoWorker.Statements.{
  DbError, Table, is_owner, text_is, owns_worktree, owns_branch, abandon_reservation, mark_stale,
}

-- UNIQUE(repo, issue_number), where the repository has no case
unfoldable pub is_for : String → ℕ → Assignment → Bool
is_for repo issue a =
    codes_eq (to_ascii_lowercase a.repo) (to_ascii_lowercase repo) && eqb a.issue issue

-- `get`
unfoldable pub get_assignment : String → ℕ → Table → Option Assignment
get_assignment repo issue table = find_where (is_for repo issue) table

unfoldable pub get_by_agent : String → Table → Option Assignment
get_by_agent agent_id table = find_where (λ (a : Assignment). text_is agent_id a.agent_id) table

-- what `reserve` binds
pub record Reservation : Type 0 where
  pub assignment_id : String
  pub repo : String
  pub issue : ℕ
  pub base : Option String
  pub slug : String
  pub branch : String
  pub branch_policy : String
  pub worktree : String
  pub bare_path : String
  pub spawned_by : Option String

pub data ReserveError : Type 0 where
  beyond_sqlite : ℕ → ReserveError
  invalid_branch : String → ReserveError
  collision : String → String → ℕ → ReserveError
  constraints_refused : ReserveError

-- the row, with the defaults of the columns that the statement leaves out
abbrev pub new_row : Reservation → ℕ → Assignment
new_row r now = record {
  assignment_id = r.assignment_id;
  repo = r.repo;
  issue = r.issue;
  state = preparing;
  phase = "reserved";
  base = r.base;
  base_head = none;
  slug = r.slug;
  branch = r.branch;
  branch_policy = r.branch_policy;
  worktree = r.worktree;
  bare_path = r.bare_path;
  agent_id = none;
  related_agent_ids = [];
  spawned_by = r.spawned_by;
  expected_head = none;
  pushed_head = none;
  publication_state = PublicationState.unpublished;
  pr = none;
  pr_url = none;
  pr_state = none;
  pr_draft = none;
  pr_head = none;
  pr_base = none;
  pr_checked_unix = none;
  cleanup_state = CleanupState.nothing;
  cleanup_head = none;
  cleanup_reason = none;
  last_error = none;
  created_unix = now;
  updated_unix = now;
  terminal_unix = none;
}

-- whether a row keeps a new one out: the id, the issue, and the indexes of what is owned
unfoldable pub conflicts : Assignment → Assignment → Bool
conflicts new a =
    a.assignment_id == new.assignment_id
    || is_for new.repo new.issue a
    || (is_owner a.state && (owns_worktree a.worktree new || owns_branch a.repo a.branch new))

-- the row that the error names, of those that match the first one of the table
unfoldable pub collides : Reservation → Assignment → Bool
collides r a =
    a.worktree == r.worktree
    || (codes_eq (to_ascii_lowercase a.repo) (to_ascii_lowercase r.repo) && a.branch == r.branch)

unfoldable pub refusal : Reservation → Table → ReserveError
refusal r table = elim (find_where (collides r) table) [
  | some a ↦ collision a.assignment_id a.repo a.issue
  | none ↦ constraints_refused
]

-- INSERT … ON CONFLICT DO NOTHING, and what follows it
unfoldable pub insert_reservation :
    Reservation → ℕ → Table → Result ReserveError (Table × Assignment × Bool)
insert_reservation r now table =
    if exists_where (conflicts (new_row r now)) table
    then elim (get_assignment r.repo r.issue table) [
      | some a ↦ ok (table, a, false)
      | none ↦ err (refusal r table)
    ]
    else ok (table ++ new_row r now ∷ [], new_row r now, true)

unfoldable pub reserve :
    Bool → Reservation → ℕ → Table → Result ReserveError (Table × Assignment × Bool)
reserve branch_is_valid r now table =
    refuse_if (ltb i64_max r.issue) (beyond_sqlite r.issue)
    >> elim (get_assignment r.repo r.issue table) [
      | some a ↦ ok (table, a, false)
      | none ↦
          refuse_if (not branch_is_valid) (invalid_branch r.branch)
          >> insert_reservation r now table
    ]

unfoldable pub record_pre_resource_failure :
    String → String → String → ℕ → Table → Result DbError Table
record_pre_resource_failure id phase error now table =
    let (table', released) = abandon_reservation id table in
    if released then ok table' else mark_stale id phase error now table
