-- ===== src/Base/TextOrder.antt =====
-- The comparison of two texts, asked the other way round.
use Prim.Native.Nat.compare as compare_ℕ
use Prim.Native.Nat.{ℕ, Ordering, zero, suc, compare as compare_ℕ}
use Prim.Native.Char.{code}
use Prim.Native.String.compare
use Prim.Native.String.{String, [], ◌∷◌, compare, then}
use mathlib.Core.Path.{◌≡◌, refl, sym, ◌∙◌, ap}

abbrev pub reversed : Ordering → Ordering
reversed Ordering.lt = Ordering.gt
reversed Ordering.eq = Ordering.eq
reversed Ordering.gt = Ordering.lt

reversed-numbers : (m n : ℕ) → compare_ℕ n m ≡ reversed (compare_ℕ m n)
reversed-numbers zero zero = compare_ℕ.zero-zero ∙ sym (ap reversed compare_ℕ.zero-zero)
reversed-numbers zero (suc n) = compare_ℕ.suc-zero n ∙ sym (ap reversed (compare_ℕ.zero-suc n))
reversed-numbers (suc m) zero = compare_ℕ.zero-suc m ∙ sym (ap reversed (compare_ℕ.suc-zero m))
reversed-numbers (suc m) (suc n) =
    compare_ℕ.suc-suc n m ∙ reversed-numbers m n ∙ sym (ap reversed (compare_ℕ.suc-suc m n))

reversed-then : (o r : Ordering) → then (reversed o) (reversed r) ≡ reversed (then o r)
reversed-then Ordering.lt r = refl
reversed-then Ordering.eq r = refl
reversed-then Ordering.gt r = refl

pub reversed-texts : (s t : String) → compare t s ≡ reversed (compare s t)
reversed-texts [] [] = compare.nil-nil ∙ sym (ap reversed compare.nil-nil)
reversed-texts [] (d ∷ t) = compare.cons-nil d t ∙ sym (ap reversed (compare.nil-cons d t))
reversed-texts (c ∷ s) [] = compare.nil-cons c s ∙ sym (ap reversed (compare.cons-nil c s))
reversed-texts (c ∷ s) (d ∷ t) =
    compare.cons-cons d c t s
    ∙ rw (reversed-numbers (code c) (code d), reversed-texts s t) (reversed-then _ _)
    ∙ sym (ap reversed (compare.cons-cons c d s t))
