-- ===== src/Grants/Ceiling.antt =====
-- What an authenticated caller can hand to its child.
use ciacola.Base.{
  String, ◌≡◌, refl, Bool, true, false, some, List, [], ◌∷◌, arith, Bool-cases, inl, inr, ok, All,
}
use ciacola.Base.Table.{All-weaken}
use ciacola.Ledger.Rows.{Agent, Ledger}
use ciacola.Ledger.Turns.{get_agent}
use ciacola.Grants.{
  ChildToolGrant, tool_covers, held, partition, grant_child_tools_from_parent, grant_child_tools,
}

-- every element of the third list is in one of the first two, in order
pub data Split : List String → List String → List String → Type 0 where
  split_end : Split [] [] []
  to_left : (t : String) (l r s : List String) → Split l r s → Split (t ∷ l) r (t ∷ s)
  to_right : (t : String) (l r s : List String) → Split l r s → Split l (t ∷ r) (t ∷ s)

-- whether some tool of the list covers the one requested
pub data Covered (tool : String) : List String → Type 0 where
  here : (t : String) (ts : List String) → tool_covers t tool ≡ true → Covered tool (t ∷ ts)
  there : (t : String) (ts : List String) → Covered tool ts → Covered tool (t ∷ ts)

held-Covered : (ts : List String) (tool : String) → held ts tool ≡ true → Covered tool ts
unfolding held
held-Covered [] tool h = cc
held-Covered (t ∷ ts) tool h = elim (Bool-cases (tool_covers t tool)) [
  | inl e ↦ here t ts e
  | inr e ↦ there t ts (held-Covered ts tool (ground arith))
]

none-held :
    (ts : List String) (tool : String)
    → held ts tool ≡ false
    → All (λ t. tool_covers t tool ≡ false) ts
unfolding held
none-held [] tool h = tt
none-held (t ∷ ts) tool h = (ground arith, none-held ts tool (ground arith))

module _ (p : String → Bool) where
  -- what a partition makes of a list
  Parted : List String → Type 0
  Parted ts =
      Split (partition p ts).granted (partition p ts).denied ts
      × All (λ t. p t ≡ true) (partition p ts).granted
      × All (λ t. p t ≡ false) (partition p ts).denied

  partition-Parted : (ts : List String) → Parted ts
  unfolding partition Parted
  partition-Parted [] = (split_end, tt, tt)
  partition-Parted (t ∷ ts) =
      let (s, g, d) = partition-Parted ts in
      elim (Bool-cases (p t)) [
        | inl e ↦ rw e (to_left t _ _ ts s, (e, g), d)
        | inr e ↦ rw e (to_right t _ _ ts s, g, (e, d))
      ]

-- An authenticated caller is granted a part of what it requests, in order, and the rest is denied: each
-- granted tool is covered by a tool that the caller's agent holds, and no tool that it holds covers
-- one that is denied.
pub grant_child_tools-ceiling :
    (l : Ledger) (parent_id : String) (parent : Agent) (requested : List String)
    → get_agent l parent_id ≡ some parent
    → (g : ChildToolGrant) × (grant_child_tools l (some parent_id) requested ≡ ok g)
      × Split g.granted g.denied requested
      × All (λ t. Covered t parent.def.allowed_tools) g.granted
      × All (λ t. All (λ h. tool_covers h t ≡ false) parent.def.allowed_tools) g.denied
unfolding grant_child_tools grant_child_tools_from_parent Parted
grant_child_tools-ceiling l parent_id parent requested e =
    let tools = parent.def.allowed_tools in
    let (s, g, d) = partition-Parted (held tools) requested in
    (
      partition (held tools) requested,
      rw (e, grant_child_tools) refl,
      s,
      All-weaken _ _ (held-Covered tools) _ g,
      All-weaken _ _ (none-held tools) _ d,
    )
