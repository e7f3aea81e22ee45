-- ===== src/Base/Table/Finds.antt =====
-- What a query for one row finds, also after an update or an insertion.
use Prim.Native.Nat.{◌≤◌, ◌<◌}
use mathlib.Core.Path.{◌≡◌, refl, subst}
use mathlib.Core.Bool.{Bool, true, false, ◌&&◌}
use mathlib.Core.Logic.{inl, inr}
use mathlib.Core.Option.{Option, none, some}
use mathlib.Core.List.{List, [], ◌∷◌, ◌++◌}
use native.Mathlib.Omega.{arith}
use ciacola.Base.Tests.{Bool-cases, if◌then◌else◌, or_else}
use ciacola.Base.Lists.{All, length}
use ciacola.Base.Table.Defs.{update_where, count_where, find_where, select_where}

module _ {ℓ} {A : Type ℓ} where
  abbrev pub updated_row : (A → Bool) → (A → A) → A → A
  updated_row p f x = if p x then f x else x

  abbrev pub map_found : (A → A) → Option A → Option A
  map_found f none = none
  map_found f (some x) = some (f x)

  -- An update that leaves the query's key alone is seen in the row that the query finds.
  pub find-update_where :
      (q p : A → Bool) (f : A → A)
      → ((x : A) → p x ≡ true → q (f x) ≡ q x)
      → (xs : List A)
      → find_where q (update_where p f xs) ≡ map_found (updated_row p f) (find_where q xs)
  unfolding find_where update_where
  find-update_where q p f h [] = refl
  find-update_where q p f h (x ∷ xs) =
      let rest = find-update_where q p f h xs in
      elim (Bool-cases (p x)) [ inl e ↦ ground (arith, h x e, rest) | inr e ↦ ground (arith, rest) ]

  pub find-append :
      (q : A → Bool) (xs ys : List A)
      → find_where q (xs ++ ys) ≡ or_else (find_where q xs) (find_where q ys)
  unfolding find_where
  find-append q [] ys = refl
  find-append q (x ∷ xs) ys = ground (arith, find-append q xs ys)

  -- A found row satisfies the query.
  pub find_where-some : (q : A → Bool) (xs : List A) (x : A) → find_where q xs ≡ some x → q x ≡ true
  unfolding find_where
  find_where-some q [] x h = cc
  find_where-some q (y ∷ xs) x h = ground (arith, find_where-some q xs x)

  pub no_more :
      (q r : A → Bool) (xs : List A) → count_where q xs ≡ 0 → count_where (λ y. q y && r y) xs ≡ 0
  unfolding count_where
  no_more q r [] c = refl
  no_more q r (y ∷ xs) c = ground (arith, no_more q r xs)

  pub find_where-none : (q : A → Bool) (xs : List A) → find_where q xs ≡ none → count_where q xs ≡ 0
  unfolding find_where count_where
  find_where-none q [] h = refl
  find_where-none q (y ∷ xs) h = ground (arith, find_where-none q xs)

  -- If the query has one row, a narrower one has that row or none.
  pub count-found :
      (q r : A → Bool) (xs : List A) (x : A)
      → find_where q xs ≡ some x
      → count_where q xs ≤ 1
      → count_where (λ y. q y && r y) xs ≡ (if r x then 1 else 0)
  unfolding find_where count_where
  count-found q r [] x h c = cc
  count-found q r (y ∷ xs) x h c = elim (Bool-cases (q y)) [
    | inl e ↦
        let same : y ≡ x = ground arith in
        let nothing : count_where q xs ≡ 0 = ground arith in ground (arith, no_more q r xs nothing)
    | inr e ↦ ground (arith, count-found q r xs x)
  ]

  pub count_of_found :
      (q : A → Bool) (xs : List A) (x : A) → find_where q xs ≡ some x → 0 < count_where q xs
  unfolding find_where count_where
  count_of_found q [] x h = cc
  count_of_found q (y ∷ xs) x h = ground (arith, count_of_found q xs x)

  pub All-found :
      (P : A → Type ℓ) (q : A → Bool) (xs : List A) (x : A)
      → All P xs
      → find_where q xs ≡ some x
      → P x
  unfolding find_where
  All-found P q [] x k h = cc
  All-found P q (y ∷ xs) x k h = elim (Bool-cases (q y)) [
    | inl e ↦ let same : y ≡ x = ground arith in subst P same k.0
    | inr e ↦ All-found P q xs x k.1 (ground arith)
  ]

  -- An update that no row of a query is selected by, before or after it, is not seen by the query.
  pub select-update_where_other :
      (q p : A → Bool) (f : A → A)
      → ((x : A) → p x ≡ true → (q x ≡ false) × (q (f x) ≡ false))
      → (xs : List A) → select_where q (update_where p f xs) ≡ select_where q xs
  unfolding select_where update_where
  select-update_where_other q p f h [] = refl
  select-update_where_other q p f h (x ∷ xs) = elim (Bool-cases (p x)) [
    | inl e ↦ ground (arith, h x e, select-update_where_other q p f h xs)
    | inr e ↦ ground (arith, select-update_where_other q p f h xs)
  ]

  pub length-select_where :
      (q : A → Bool) (xs : List A) → length (select_where q xs) ≡ count_where q xs
  unfolding select_where count_where
  length-select_where q [] = refl
  length-select_where q (x ∷ xs) = ground (arith, length-select_where q xs)
