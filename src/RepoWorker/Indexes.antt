-- ===== src/RepoWorker/Indexes.antt =====
-- The unique indexes of the assignments under the requests: one owner of a worktree, one of a branch, one
-- row of an agent.
mod Rows
use ciacola.Base.{◌≤◌, none, some, not, leb, Bool, true, false, ◌&&◌, ◌||◌, [], ◌∷◌}
use ciacola.Base.Table.{update_where, count_where, count-update_where_le}
use ciacola.RepoWorker.Assignment.{stale, Assignment}
use ciacola.RepoWorker.Statements.{Table, update_one, owns_worktree, owns_branch, has_agent}
use ciacola.RepoWorker.Finish.{try_update, state_eq}
use ciacola.RepoWorker.Requests.{Request, reserved, activated, finish_began}
use ciacola.RepoWorker.Indexes.Rows.{Keeps}

-- whether a request may make a row own what it did not: a new row, an agent, or a stale row that is
-- finished, which owns its worktree and its branch again
abbrev pub claims : Request → Bool
claims (reserved _ _ _) = true
claims (activated _ _ _ _) = true
claims (finish_began a _ _ _ _) = state_eq a.state stale
claims _ = false
