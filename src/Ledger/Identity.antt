-- ===== src/Ledger/Identity.antt =====
-- Tokens, ancestry and providers of agents.
use ciacola.Base.{
  ℕ, zero, suc, ◌+◌, ◌≤◌, ◌<◌, String, ◌≡◌, ◌≢◌, ap, Bool, true, false, not, ◌&&◌, none, some, List,
  [], ◌∷◌, arith, Bool-cases, Option-cases, inl, inr, eq_iff, ◌==◌,
}
use ciacola.Base.Table.{
  count_where, find_where, exists_where, count-none, count-update_where_cleared,
}
use ciacola.Ledger.Rows.{Ledger, Agent}
use ciacola.Ledger.Turns.{is_agent, flies_for, get_agent}
use ciacola.Ledger.Agents.{retire_agent, depth_from, spawn_depth, agent_id_by_token}

-- The agents above one, counted: `Ancestry l id n` when following `spawned_by` from `id` ends after
-- `n` steps, at an agent that no agent spawned or at an id that is not in the table.
pub data Ancestry (l : Ledger) : String → ℕ → Type 0 where
  unlisted : (id : String) → get_agent l id ≡ none → Ancestry l id 0
  root : (id : String) (a : Agent) → get_agent l id ≡ some a → a.spawned_by ≡ none → Ancestry l id 0
  child :
      (id parent : String) (a : Agent) (n : ℕ)
      → get_agent l id ≡ some a
      → a.spawned_by ≡ some parent
      → Ancestry l parent n
      → Ancestry l id (suc n)

depth_from-bound :
    (l : Ledger) (rounds depth : ℕ) (id : String) → depth_from l rounds depth id ≤ depth + rounds
unfolding depth_from
depth_from-bound l zero depth id = omega arith
depth_from-bound l (suc rounds) depth id = elim (Option-cases (get_agent l id)) [
  | inl e ↦ rw (depth_from, e) (omega arith)
  | inr (a, e) ↦ elim (Option-cases a.spawned_by) [
    | inl s ↦ rw (depth_from, e, s) (omega arith)
    | inr (parent, s) ↦
        rw (depth_from, e, s) (omega (arith, depth_from-bound l rounds (depth + 1) parent))
  ]
]

depth_from-Ancestry :
    (l : Ledger) (rounds depth n : ℕ) (id : String)
    → Ancestry l id n
    → n ≤ rounds
    → depth_from l rounds depth id ≡ depth + n
unfolding depth_from
depth_from-Ancestry l zero depth zero id a h = omega arith
depth_from-Ancestry l zero depth (suc n) id a h = absurd (omega arith)
depth_from-Ancestry l (suc rounds) depth n id (unlisted _ e) h = rw (depth_from, e) (omega arith)
depth_from-Ancestry l (suc rounds) depth n id (root _ a e s) h = rw (depth_from, e, s) (omega arith)
depth_from-Ancestry l (suc rounds) depth n id (child _ parent a m e s up) h =
    rw (depth_from, e, s)
      (omega (arith, depth_from-Ancestry l rounds (depth + 1) m parent up (omega arith)))

-- The spawn depth of an agent is the number of its ancestors where these are at most 64, and is never
-- more than 64, whatever the table holds, a cycle included.
pub spawn_depth-Ancestry :
    (l : Ledger) (id : String)
    → (spawn_depth l id ≤ 64) × ((n : ℕ) → Ancestry l id n → n ≤ 64 → spawn_depth l id ≡ n)
unfolding spawn_depth
spawn_depth-Ancestry l id = (
  omega (arith, depth_from-bound l 64 0 id),
  λ n a h. omega (arith, depth_from-Ancestry l 64 0 n id a h),
)

abbrev holds : String → Agent → Bool
holds token a = elim a.token [ none ↦ false | some t ↦ t == token ] && not a.retired

holder :
    (l : Ledger) (token id : String)
    → agent_id_by_token l token ≡ some id
    → (a : Agent) × (find_where (holds token) l.agents ≡ some a) × (a.agent_id ≡ id)
unfolding agent_id_by_token
holder l token id h = elim (Option-cases (find_where (holds token) l.agents)) [
  | inl e ↦ ground arith
  | inr (a, e) ↦ (a, e, ground arith)
]

-- an agent of the id that works
abbrev lives : String → Agent → Bool
lives id a = is_agent id a && not a.retired

alive :
    (token : String) (agents : List Agent) (a : Agent)
    → find_where (holds token) agents ≡ some a
    → 0 < count_where (lives a.agent_id) agents
unfolding find_where count_where is_agent
alive token [] a h = cc
alive token (b ∷ agents) a h = elim (Bool-cases (holds token b)) [
  | inl e ↦
      let same : b ≡ a = ground arith in
      let works : b.retired ≡ false = ground arith in
      let self : b.agent_id ≡ a.agent_id = ap (λ (x : Agent). x.agent_id) same in
      ground (arith, eq_iff b.agent_id a.agent_id)
  | inr e ↦ ground (arith, alive token agents a)
]

retired_leaves_none :
    (l : Ledger) (id : String)
    → (retire_agent l id).1 ≡ true
    → count_where (lives id) (retire_agent l id).0.agents ≡ 0
unfolding retire_agent
retired_leaves_none l id h = elim (Bool-cases (exists_where (flies_for id) l.turns)) [
  | inl e ↦ ground (
    arith,
    count-none
        (λ (a : Agent). is_agent id a && not a.retired && not (exists_where (flies_for id) l.turns))
        (λ a. ground arith) l.agents,
  )
  | inr e ↦
      count-update_where_cleared _ _ (lives id) (λ a x. ground arith) (λ a. ground arith) l.agents
]

-- Once an agent has been retired, no token resolves to it.
pub retire_agent-token :
    (l : Ledger) (id token : String)
    → (retire_agent l id).1 ≡ true
    → agent_id_by_token (retire_agent l id).0 token ≢ some id
retire_agent-token l id token h k =
    let (a, found, same) = holder (retire_agent l id).0 token id k in
    let here = alive token (retire_agent l id).0.agents a found in
    let gone = retired_leaves_none l id h in absurd (ground (arith, same))
