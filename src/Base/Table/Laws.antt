-- ===== src/Base/Table/Laws.antt =====
-- What an update leaves alone, what it establishes, and how it changes a sum.
use Prim.Native.Nat.{ℕ, ◌+◌, ◌*◌, ◌≤◌, ◌<◌}
use mathlib.Core.Path.{◌≡◌, refl}
use mathlib.Core.Bool.{Bool, true, false}
use mathlib.Core.Logic.{inl, inr, ◌↔◌}
use mathlib.Core.List.{List, [], ◌∷◌, ◌++◌}
use native.Mathlib.Omega.{arith}
use ciacola.Base.Tests.{Bool-cases}
use ciacola.Base.Lists.{All}
use ciacola.Base.Table.Defs.{update_where, count_where, sum_of, exists_where}

module _ {ℓ κ} {A : Type ℓ} (P : A → Type κ) (p : A → Bool) (f : A → A) where
  pub All-update_where :
      ((x : A) → P x → p x ≡ true → P (f x))
      → (xs : List A) → All P xs
      → All P (update_where p f xs)
  unfolding update_where
  All-update_where h [] k = k
  All-update_where h (x ∷ xs) k = elim (Bool-cases (p x)) [
    | inl e ↦ rw e (h x k.0 e, All-update_where h xs k.1)
    | inr e ↦ rw e (k.0, All-update_where h xs k.1)
  ]

-- An update that takes each row from one property to another.
module _ {ℓ κ μ} {A : Type ℓ} (P : A → Type κ) (Q : A → Type μ) (p : A → Bool) (f : A → A) where
  pub All-update_where_to :
      ((x : A) → P x → p x ≡ true → Q (f x))
      → ((x : A) → P x → p x ≡ false → Q x)
      → (xs : List A) → All P xs
      → All Q (update_where p f xs)
  unfolding update_where
  All-update_where_to h g [] k = tt
  All-update_where_to h g (x ∷ xs) k = elim (Bool-cases (p x)) [
    | inl e ↦ rw e (h x k.0 e, All-update_where_to h g xs k.1)
    | inr e ↦ rw e (g x k.0 e, All-update_where_to h g xs k.1)
  ]

module _ {ℓ} {A : Type ℓ} (p : A → Bool) (f : A → A) where
  -- An update whose rows leave the clause selects none the second time.
  pub count-update_where_self :
      ((x : A) → p (f x) ≡ false) → (xs : List A) → count_where p (update_where p f xs) ≡ 0
  unfolding update_where count_where
  count-update_where_self h [] = refl
  count-update_where_self h (x ∷ xs) = elim (Bool-cases (p x)) [
    | inl e ↦ rw (e, h x) (omega (arith, count-update_where_self h xs))
    | inr e ↦ rw (e, e) (omega (arith, count-update_where_self h xs))
  ]

  -- An update that reaches every row of a query and takes it out of the query leaves it empty.
  pub count-update_where_cleared :
      (q : A → Bool)
      → ((x : A) → q x ≡ true → p x ≡ true)
      → ((x : A) → q (f x) ≡ false)
      → (xs : List A) → count_where q (update_where p f xs) ≡ 0
  unfolding update_where count_where
  count-update_where_cleared q h k [] = refl
  count-update_where_cleared q h k (x ∷ xs) = elim (Bool-cases (p x)) [
    | inl e ↦ rw e (ground (arith, k x, count-update_where_cleared q h k xs))
    | inr e ↦ rw e (ground (arith, h x, count-update_where_cleared q h k xs))
  ]

  pub count-update_where_other :
      (q : A → Bool)
      → ((x : A) → p x ≡ true → q (f x) ≡ q x)
      → (xs : List A) → count_where q (update_where p f xs) ≡ count_where q xs
  unfolding update_where count_where
  count-update_where_other q h [] = refl
  count-update_where_other q h (x ∷ xs) = elim (Bool-cases (p x)) [
    | inl e ↦ rw (e, h x e) (omega (arith, count-update_where_other q h xs))
    | inr e ↦ rw e (omega (arith, count-update_where_other q h xs))
  ]

  pub count-update_where_le :
      (q : A → Bool)
      → ((x : A) → p x ≡ true → q (f x) ≡ true → q x ≡ true)
      → (xs : List A) → count_where q (update_where p f xs) ≤ count_where q xs
  unfolding update_where count_where
  count-update_where_le q h [] = omega arith
  count-update_where_le q h (x ∷ xs) = elim (Bool-cases (p x)) [
    | inl e ↦ rw e (ground (arith, h x e, count-update_where_le q h xs))
    | inr e ↦ rw e (omega (arith, count-update_where_le q h xs))
  ]

-- Each selected row, which contributed nothing, now contributes `c`.
module _ {ℓ κ} {A : Type ℓ} (P : A → Type κ) (p : A → Bool) (f : A → A) (g : A → ℕ) (c : ℕ) where
  pub sum-update_where :
      ((x : A) → P x → p x ≡ true → (g x ≡ 0) × (g (f x) ≡ c))
      → (xs : List A) → All P xs
      → sum_of g (update_where p f xs) ≡ sum_of g xs + count_where p xs * c
  unfolding update_where count_where sum_of
  sum-update_where h [] k = omega arith
  sum-update_where h (x ∷ xs) k = elim (Bool-cases (p x)) [
    | inl e ↦ rw e (grind (arith, h x k.0 e, sum-update_where h xs k.1))
    | inr e ↦ rw e (omega (arith, sum-update_where h xs k.1))
  ]

module _ {ℓ κ} {A : Type ℓ} (P : A → Type κ) (p : A → Bool) (f : A → A) (g : A → ℕ) where
  pub sum-update_where_same :
      ((x : A) → P x → p x ≡ true → g (f x) ≡ g x)
      → (xs : List A) → All P xs
      → sum_of g (update_where p f xs) ≡ sum_of g xs
  unfolding update_where sum_of
  sum-update_where_same h [] k = refl
  sum-update_where_same h (x ∷ xs) k = elim (Bool-cases (p x)) [
    | inl e ↦ rw (e, h x k.0 e) (omega (arith, sum-update_where_same h xs k.1))
    | inr e ↦ rw e (omega (arith, sum-update_where_same h xs k.1))
  ]

module _ {ℓ} {A : Type ℓ} where
  pub count-append :
      (p : A → Bool) (xs ys : List A)
      → count_where p (xs ++ ys) ≡ count_where p xs + count_where p ys
  unfolding count_where
  count-append p [] ys = omega arith
  count-append p (x ∷ xs) ys = omega (arith, count-append p xs ys)

  pub sum-append : (g : A → ℕ) (xs ys : List A) → sum_of g (xs ++ ys) ≡ sum_of g xs + sum_of g ys
  unfolding sum_of
  sum-append g [] ys = omega arith
  sum-append g (x ∷ xs) ys = omega (arith, sum-append g xs ys)

  pub count_mono :
      (p q : A → Bool)
      → ((x : A) → p x ≡ true → q x ≡ true)
      → (xs : List A) → count_where p xs ≤ count_where q xs
  unfolding count_where
  count_mono p q h [] = omega arith
  count_mono p q h (x ∷ xs) = ground (arith, h x, count_mono p q h xs)

  pub exists_where-false :
      (p : A → Bool) (xs : List A) → (exists_where p xs ≡ false) ↔ (count_where p xs ≡ 0)
  unfolding exists_where count_where
  exists_where-false p [] = ground arith
  exists_where-false p (x ∷ xs) = ground (arith, exists_where-false p xs)

  pub exists_where-true :
      (p : A → Bool) (xs : List A) → (exists_where p xs ≡ true) ↔ (0 < count_where p xs)
  unfolding exists_where count_where
  exists_where-true p [] = ground arith
  exists_where-true p (x ∷ xs) = ground (arith, exists_where-true p xs)

  pub All-weaken {κ μ} :
      (P : A → Type κ) (Q : A → Type μ)
      → ((x : A) → P x → Q x)
      → (xs : List A) → All P xs
      → All Q xs
  All-weaken P Q h [] k = tt
  All-weaken P Q h (x ∷ xs) k = (h x k.0, All-weaken P Q h xs k.1)

  pub All-combine {κ μ ν} :
      (P : A → Type κ) (Q : A → Type μ) (R : A → Type ν)
      → ((x : A) → P x → Q x → R x)
      → (xs : List A) → All P xs
      → All Q xs
      → All R xs
  All-combine P Q R h [] k m = tt
  All-combine P Q R h (x ∷ xs) k m = (h x k.0 m.0, All-combine P Q R h xs k.1 m.1)

  pub count-none : (p : A → Bool) → ((x : A) → p x ≡ false) → (xs : List A) → count_where p xs ≡ 0
  unfolding count_where
  count-none p h [] = refl
  count-none p h (x ∷ xs) = ground (arith, h x, count-none p h xs)
