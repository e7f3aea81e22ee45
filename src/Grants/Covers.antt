-- ===== src/Grants/Covers.antt =====
-- A tool that is covered by a covered tool is covered: the ceiling holds along a chain of children.
use ciacola.Base.{
  String, ◌==◌, ◌≡◌, refl, sym, subst, true, false, not, ◌&&◌, ◌||◌, Option, none, some, arith,
  Bool-cases, inl, inr, eq_iff,
}
use ciacola.Recovery.Orphans.{starts_with, contains_text}
use ciacola.Grants.{strip_suffix, tool_covers}
use ciacola.Grants.Prefixes.{
  joined, Mark, blank, colon, opening, underscores, rest_is-starts_with, starts_with_trans,
  starts_with-joined, strip_suffix_lem, Same, inside, rest_is_either,
}

module _ (a b : String) where
  covers_plain :
      strip_suffix ":*)" a ≡ none
      → tool_covers a b ≡ (
          a == b
          || (not (contains_text "(" a) && starts_with (joined a "(") b)
          || (starts_with "mcp__" a && starts_with (joined a "__") b))
  unfolding tool_covers
  covers_plain e =
      rw (tool_covers, e, rest_is-starts_with "(" a b, rest_is-starts_with "__" a b) (ground arith)

  covers_prefix :
      (p : String)
      → strip_suffix ":*)" a ≡ some p
      → tool_covers a b ≡ (a == b || starts_with (joined p " ") b || starts_with (joined p ":") b)
  unfolding tool_covers
  covers_prefix p e = rw (tool_covers, e, rest_is_either " " ":" p b) (ground arith)

-- what a prefix of a tool is of a tool that is covered
data Reaches (p x c : String) : Type 0 where
  still : starts_with (joined p x) c ≡ true → Reaches p x c
  instead :
      x ≡ ":" → starts_with (joined p " ") c || starts_with (joined p ":") c ≡ true → Reaches p x c

module _ (p x : String) (m : Mark x) (b c : String) (h : starts_with (joined p x) b ≡ true) where
  beyond : (y : String) → starts_with (joined b y) c ≡ true → Reaches p x c
  beyond y k =
      still
        (starts_with_trans (joined p x) (joined b y) c (starts_with-joined (joined p x) b y h) k)

  behind :
      (q y : String)
      → starts_with (joined p x) q ≡ true
      → starts_with (joined q y) c ≡ true
      → starts_with (joined p x) c ≡ true
  behind q y g k =
      starts_with_trans (joined p x) (joined q y) c (starts_with-joined (joined p x) q y g) k

  alike :
      (q y : String)
      → Same p q
      → starts_with (joined q y) c ≡ true
      → starts_with (joined p y) c ≡ true
  unfolding Same
  alike q y s k = starts_with_trans (joined p y) (joined q y) c (s y) k

  Reaches-plain : strip_suffix ":*)" b ≡ none → tool_covers b c ≡ true → Reaches p x c
  Reaches-plain e k = elim (Bool-cases (b == c)) [
    | inl same ↦ still (subst (λ s. starts_with (joined p x) s ≡ true) ((eq_iff b c).0 same) h)
    | inr other ↦ elim (Bool-cases (starts_with (joined b "(") c)) [
      | inl f ↦ beyond "(" f
      | inr f ↦ beyond "__" (ground (arith, covers_plain b c e))
    ]
  ]

  Reaches-prefix :
      (q : String) → strip_suffix ":*)" b ≡ some q → tool_covers b c ≡ true → Reaches p x c
  Reaches-prefix q e k = elim (Bool-cases (b == c)) [
    | inl same ↦ still (subst (λ s. starts_with (joined p x) s ≡ true) ((eq_iff b c).0 same) h)
    | inr other ↦
        elim (inside p q x m
          (subst (λ s. starts_with (joined p x) s ≡ true) (strip_suffix_lem ":*)" b q e) h)) [
            | inl g ↦ elim (Bool-cases (starts_with (joined q " ") c)) [
              | inl f ↦ still (behind q " " g f)
              | inr f ↦ still (behind q ":" g (ground (arith, covers_prefix b c q e)))
            ]
            | inr (is, s) ↦ elim (Bool-cases (starts_with (joined q " ") c)) [
              | inl f ↦ instead is (ground (arith, alike q " " s f))
              | inr f ↦
                  instead is (ground (arith, alike q ":" s (ground (arith, covers_prefix b c q e))))
            ]
          ]
  ]

  all-Reaches :
      (o : Option String) → strip_suffix ":*)" b ≡ o → tool_covers b c ≡ true → Reaches p x c
  all-Reaches none = Reaches-plain
  all-Reaches (some q) = Reaches-prefix q

colon_only : {A : Type 0} → (x : String) → x ≡ ":" → (x == ":" ≡ false) → A
colon_only x e h = let t = (eq_iff x ":").1 e in cc

module _ (a b c : String) (h : tool_covers a b ≡ true) (k : tool_covers b c ≡ true) where
  from_equal : a == b ≡ true → tool_covers a c ≡ true
  from_equal e = subst (λ s. tool_covers s c ≡ true) (sym ((eq_iff a b).0 e)) k

  -- the two marks that are no colon
  kept_prefix :
      (p x : String)
      → Mark x
      → x == ":" ≡ false
      → starts_with (joined p x) b ≡ true
      → starts_with (joined p x) c ≡ true
  kept_prefix p x m n g = elim (all-Reaches p x m b c g (strip_suffix ":*)" b) refl k) [
    | still f ↦ f
    | instead is f ↦ colon_only x is n
  ]

  from_plain : strip_suffix ":*)" a ≡ none → tool_covers a c ≡ true
  from_plain e = elim (Bool-cases (a == b)) [
    | inl same ↦ from_equal same
    | inr other ↦ elim (Bool-cases (not (contains_text "(" a) && starts_with (joined a "(") b)) [
      | inl f ↦ ground (arith, covers_plain a c e, kept_prefix a "(" opening refl (ground arith))
      | inr f ↦ ground (
        arith,
        covers_plain a c e,
        kept_prefix a "__" underscores refl (ground (arith, covers_plain a b e)),
        covers_plain a b e,
      )
    ]
  ]

  from_prefix : (p : String) → strip_suffix ":*)" a ≡ some p → tool_covers a c ≡ true
  from_prefix p e = elim (Bool-cases (a == b)) [
    | inl same ↦ from_equal same
    | inr other ↦ elim (Bool-cases (starts_with (joined p " ") b)) [
      | inl f ↦ ground (arith, covers_prefix a c p e, kept_prefix p " " blank refl f)
      | inr f ↦
          elim (all-Reaches p ":" colon b c (ground (arith, covers_prefix a b p e))
            (strip_suffix ":*)" b) refl k) [
              | still g ↦ ground (arith, covers_prefix a c p e)
              | instead is g ↦ ground (arith, covers_prefix a c p e)
            ]
    ]
  ]

  from : (o : Option String) → strip_suffix ":*)" a ≡ o → tool_covers a c ≡ true
  from none = from_plain
  from (some p) = from_prefix p

-- The covering of tools is transitive: a tool that a covered tool covers is covered.
pub tool_covers_trans :
    (a b c : String) → tool_covers a b ≡ true → tool_covers b c ≡ true → tool_covers a c ≡ true
tool_covers_trans a b c h k = from a b c h k (strip_suffix ":*)" a) refl
