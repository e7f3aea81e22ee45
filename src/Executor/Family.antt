-- ===== src/Executor/Family.antt =====
-- One value to each number: what a change of one value does to the others, and to what they weigh
-- together below a bound.
use Prim.Native.Nat.{ℕ, zero, suc, ◌+◌, ◌≤◌, ◌<◌}
use mathlib.Core.Logic.{◌≢◌}
use mathlib.Core.Path.{◌≡◌, refl, ap, subst}
use native.Mathlib.Decide.{dec_lt, ℕ_discrete}
use native.Mathlib.Omega.{arith}

-- the values, with another one at the number `at`
abbrev pub update {ℓ} : {A : Type ℓ} → (ℕ → A) → ℕ → A → ℕ → A
update values at new = λ j. elim (ℕ_discrete at j) [ yes _ ↦ new | no _ ↦ values j ]

-- what holds of the new value at its number and of the old ones elsewhere
module _ {ℓ κ} {A : Type ℓ} (P : ℕ → A → Type κ) where
  pub update_cases :
      (values : ℕ → A) (at : ℕ) (new : A) (j : ℕ)
      → (at ≡ j → P j new)
      → (at ≢ j → P j (values j))
      → P j (update values at new j)
  update_cases values at new j here elsewhere =
      elim (ℕ_discrete at j) as (λ d. P j (elim d [ yes _ ↦ new | no _ ↦ values j ])) [
        | yes e ↦ here e
        | no e ↦ elsewhere e
      ]

pub update_same {ℓ} :
    {A : Type ℓ} (values : ℕ → A) (at : ℕ) (new : A) → update values at new at ≡ new
update_same values at new =
    update_cases (λ j x. j ≡ at → x ≡ new) values at new at (λ e s. refl) (λ n s. absurd (n refl))
      refl

update_other {ℓ} :
    {A : Type ℓ} (values : ℕ → A) (at : ℕ) (new : A) (j : ℕ)
    → at ≢ j
    → update values at new j ≡ values j
update_other values at new j other =
    update_cases (λ i x. at ≢ i → x ≡ values i) values at new j (λ e n. absurd (n e)) (λ n m. refl)
      other

module _ {ℓ} {A : Type ℓ} (weight : A → ℕ) where
  -- the weight of the values below a number
  unfoldable pub tally : (ℕ → A) → ℕ → ℕ
  tally values zero = 0
  tally values (suc below) = weight (values below) + tally values below

  module _ (values : ℕ → A) (at : ℕ) (new : A) where
    unmoved : (n : ℕ) → n ≤ at → tally (update values at new) n ≡ tally values n
    unfolding tally
    unmoved zero past = refl
    unmoved (suc n) past = omega (
      arith,
      unmoved n (omega arith),
      ap weight (update_other values at new n (λ e. omega arith)),
    )

    -- the old weight and the new one change places
    pub tally-update :
        (n : ℕ)
        → at < n
        → tally values n + weight new ≡ weight (values at) + tally (update values at new) n
    unfolding tally
    tally-update zero within = absurd (omega arith)
    tally-update (suc n) within = elim (dec_lt at n) [
      | yes before ↦ omega (
        arith,
        tally-update n before,
        ap weight (update_other values at new n (λ e. omega arith)),
      )
      | no last ↦
          let e : at ≡ n = omega arith in
          omega (
            arith,
            unmoved n (omega arith),
            ap weight (subst (λ j. update values at new j ≡ new) e (update_same values at new)),
            ap (λ j. weight (values j)) e,
          )
    ]

    pub tally_same :
        (n : ℕ) → weight new ≡ weight (values at) → tally (update values at new) n ≡ tally values n
    tally_same n same = elim (dec_lt at n) [
      | yes within ↦ omega (arith, tally-update n within, same)
      | no past ↦ unmoved n (omega arith)
    ]

  pub tally_suc :
      (values : ℕ → A) (n : ℕ) (new : A)
      → tally (update values n new) (n + 1) ≡ weight new + tally values n
  unfolding tally
  tally_suc values n new =
      let e : n + 1 ≡ suc n = omega arith in
      rw e
        (omega (arith, unmoved values n new n (omega arith), ap weight (update_same values n new)))

  pub weight-le-tally : (values : ℕ → A) (n i : ℕ) → i < n → weight (values i) ≤ tally values n
  unfolding tally
  weight-le-tally values zero i within = absurd (omega arith)
  weight-le-tally values (suc n) i within = elim (dec_lt i n) [
    | yes before ↦ omega (arith, weight-le-tally values n i before)
    | no last ↦ let e : i ≡ n = omega arith in rw e (omega arith)
  ]

-- a smaller weight has a smaller tally
pub tally-le {ℓ} :
    {A : Type ℓ} (v w : A → ℕ)
    → ((a : A) → v a ≤ w a)
    → (values : ℕ → A) (n : ℕ) → tally v values n ≤ tally w values n
unfolding tally
tally-le v w smaller values zero = omega arith
tally-le v w smaller values (suc n) =
    omega (arith, smaller (values n), tally-le v w smaller values n)
