-- ===== src/RepoWorker/Indexes/Rows.antt =====
-- The unique indexes of the assignments under an UPDATE that keeps what they index.
use ciacola.Base.{
  ℕ, ◌≤◌, ◌≡◌, ◌≢◌, refl, String, Option, none, some, not, leb, Bool, true, ◌&&◌, ◌||◌, [], ◌∷◌,
  arith, Bool-cases, inl, inr, err,
}
use ciacola.Base.Table.{update_where, count_where, count-update_where_le}
use ciacola.RepoWorker.Assignment.{Assignment}
use ciacola.RepoWorker.Statements.{
  index_refused, Table, no_clash, update_one, is_owner, owns_worktree, owns_branch, has_agent,
}
use ciacola.RepoWorker.Finish.{try_update}

-- A row that is in no index where the row it was is not.
pub record Keeps (a a' : Assignment) : Type 0 where
  pub repo : a'.repo ≡ a.repo
  pub branch : a'.branch ≡ a.branch
  pub worktree : a'.worktree ≡ a.worktree
  pub agent : a'.agent_id ≡ a.agent_id
  pub owner : is_owner a'.state ≡ true → is_owner a.state ≡ true

pub same_row :
    (a a' : Assignment)
    → a'.repo ≡ a.repo
    → a'.branch ≡ a.branch
    → a'.worktree ≡ a.worktree
    → a'.agent_id ≡ a.agent_id
    → a'.state ≡ a.state
    → Keeps a a'
same_row a a' r b w g s = record {
  repo = r;
  branch = b;
  worktree = w;
  agent = g;
  owner = λ o. rw s at o;
}

-- the test of one row, where the counts are no greater than before
row_follows :
    (o o' r' r : Bool) (w w' b b' g g' : ℕ)
    → (o' ≡ true → o ≡ true)
    → w' ≤ w
    → b' ≤ b
    → g' ≤ g
    → r' ≡ true
    → (not o || (leb w 1 && leb b 1)) && leb g 1 && r ≡ true
    → (not o' || (leb w' 1 && leb b' 1)) && leb g' 1 && r' ≡ true
row_follows o o' r' r w w' b b' g g' k u v x y z = ground arith

module _ (p : Assignment → Bool) (f : Assignment → Assignment)
    (h : (a : Assignment) → p a ≡ true → Keeps a (f a)) where
  fewer_worktrees :
      (t : Table) (w : String)
      → count_where (owns_worktree w) (update_where p f t) ≤ count_where (owns_worktree w) t
  unfolding owns_worktree
  fewer_worktrees t w =
      count-update_where_le p f (owns_worktree w)
        (λ a e o. ground (arith, (h a e).worktree, (h a e).owner)) t

  fewer_branches :
      (t : Table) (r b : String)
      → count_where (owns_branch r b) (update_where p f t) ≤ count_where (owns_branch r b) t
  unfolding owns_branch
  fewer_branches t r b =
      count-update_where_le p f (owns_branch r b)
        (λ a e o. ground (arith, rw ((h a e).repo, (h a e).branch) at o, (h a e).owner)) t

  fewer_agents :
      (t : Table) (o : Option String)
      → count_where (has_agent o) (update_where p f t) ≤ count_where (has_agent o) t
  unfolding has_agent
  fewer_agents t none = count-update_where_le p f (has_agent none) (λ a e o. cc) t
  fewer_agents t (some id) =
      count-update_where_le p f (has_agent (some id)) (λ a e o. rw ((h a e).agent) at o) t

  module _ (whole : Table) where
    accepted_row :
        (a a' : Assignment) (t : Table)
        → Keeps a a'
        → no_clash whole (a ∷ t) ≡ true
        → no_clash (update_where p f whole) (update_where p f t) ≡ true
        → no_clash (update_where p f whole) (a' ∷ update_where p f t) ≡ true
    unfolding no_clash
    accepted_row a a' t k x rest =
        rw (k.repo, k.branch, k.worktree, k.agent)
          (row_follows (is_owner a.state) (is_owner a'.state) _ (no_clash whole t) _ _ _ _ _ _
            k.owner (fewer_worktrees whole a.worktree) (fewer_branches whole a.repo a.branch)
            (fewer_agents whole a.agent_id) rest x)

    no_clash-update_where :
        (t : Table)
        → no_clash whole t ≡ true
        → no_clash (update_where p f whole) (update_where p f t) ≡ true
    unfolding no_clash update_where
    no_clash-update_where [] x = refl
    no_clash-update_where (a ∷ t) x =
        let rest = no_clash-update_where t (ground arith) in
        elim (Bool-cases (p a)) [
          | inl e ↦ rw e (accepted_row a (f a) t (h a e) x rest)
          | inr e ↦ rw e (
              accepted_row a a t
                (record {
                  repo = refl;
                  branch = refl;
                  worktree = refl;
                  agent = refl;
                  owner = λ o. o;
                })
                x rest)
        ]

  pub accepted-update_one : (t : Table) → no_clash t t ≡ true → update_one p f t ≢ err index_refused
  unfolding update_one
  accepted-update_one t x e = let free = no_clash-update_where t t x in ground arith

  pub accepted-try_update : (t : Table) → no_clash t t ≡ true → try_update p f t ≢ err index_refused
  unfolding try_update
  accepted-try_update t x e = let free = no_clash-update_where t t x in ground arith
