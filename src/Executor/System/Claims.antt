-- ===== src/Executor/System/Claims.antt =====
-- Who holds the claim of a turn, and that a step of one task keeps that in order.
use ciacola.Base.{
  ℕ, ◌+◌, ◌≤◌, ◌<◌, ◌≡◌, ◌≢◌, refl, sym, ◌∙◌, ap, subst, Bool, true, false, List, arith, Bool-cases,
  inl, inr, ◌⊎◌, ltb, eq_iff, ==_self, if◌then◌else◌,
}
use ciacola.Base.Table.{count_where}
use ciacola.Ledger.Rows.{Ledger}
use ciacola.Ledger.Operations.{IsValid}
use ciacola.Executor.Load.{Setup}
use ciacola.Executor.Settled.{Ran}
use ciacola.Executor.Family.{update, update_same, update_cases}
use ciacola.Executor.System.{Key, same_key, Phase, Task, Host, System, Move, logged}
use ciacola.Executor.System.Moves.{
  holding, before_launch, keeps, wins, launches, Move-key, Move-Ran, Move-Claim,
}
use ciacola.Executor.System.Taken.{Taken, Taken-Ran, IsValid-Ran, not-Taken, Taken-win}

pub same_key-eq : (a b : Key) → same_key a b ≡ true → a ≡ b
unfolding same_key
same_key-eq a b h = ground (arith, eq_iff a.0 b.0)

pub same_key_self : (a : Key) → same_key a a ≡ true
unfolding same_key
same_key_self a = ground (arith, ==_self a.0)

-- how often the provider of a turn was launched
unfoldable pub launches_of : Key → List (ℕ × Key) → ℕ
launches_of k log = count_where (λ (e : ℕ × Key). same_key k e.1) log

pub record Claims (s : System) : Type 0 where
  pub valid : IsValid s.ledger
  pub owned : (i : ℕ) → holding (s.tasks i).phase ≡ true → Taken (s.tasks i).key s.ledger
  pub unique :
      (i j : ℕ)
      → holding (s.tasks i).phase ≡ true
      → holding (s.tasks j).phase ≡ true
      → (s.tasks i).key ≡ (s.tasks j).key
      → i ≡ j
  pub once : (k : Key) → launches_of k s.log ≤ 1
  pub told : (k : Key) → 0 < launches_of k s.log → Taken k s.ledger
  pub quiet :
      (i : ℕ) → before_launch (s.tasks i).phase ≡ true → launches_of (s.tasks i).key s.log ≡ 0

pub before-holding : (p : Phase) → before_launch p ≡ true → holding p ≡ true
before-holding p h = ground arith

-- A step of one task.
module _ (setup : Setup) (s : System) (c : Claims s) (i : ℕ) (l' : Ledger) (h' : Host) (t' : Task)
    (b : Bool) (m : Move setup i s.ledger (s.hosts (s.tasks i).host) (s.tasks i) l' h' t' b) where
  ran : Ran s.ledger l'
  ran = Move-Ran setup i s.ledger _ (s.tasks i) m

  kept_key : (j : ℕ) → (update s.tasks i t' j).key ≡ (s.tasks j).key
  kept_key j =
      update_cases (λ j x. x.key ≡ (s.tasks j).key) s.tasks i t' j
        (λ e. (Move-key setup i s.ledger _ (s.tasks i) m).0 ∙ ap (λ j. (s.tasks j).key) e)
        (λ n. refl)

  -- who holds a claim held_before it before, or has just won it
  Kept : (Phase → Bool) → ℕ → Task → Type 0
  Kept p j x =
      p x.phase ≡ true
      → (p (s.tasks j).phase ≡ true)
        ⊎ ((i ≡ j) × ¬ (Taken (s.tasks i).key s.ledger) × Taken (s.tasks i).key l' × (b ≡ false))

  held_before : (j : ℕ) → Kept holding j (update s.tasks i t' j)
  unfolding Kept
  held_before j =
      update_cases (Kept holding) s.tasks i t' j
        (λ e x. elim (Move-Claim setup i s.ledger _ (s.tasks i) m) [
          | keeps f g z ↦ inl (subst (λ j. holding (s.tasks j).phase ≡ true) e (f x))
          | wins now w q z ↦ inr (
            e,
            not-Taken (s.tasks i).key s.ledger c.valid now w,
            subst (Taken (s.tasks i).key) (sym q)
                (Taken-win (s.tasks i).key s.ledger c.valid now w),
            z,
          )
          | launches p q z ↦ inl (subst (λ j. holding (s.tasks j).phase ≡ true) e (rw p refl))
        ])
        (λ n x. inl x)

  fresh : (j : ℕ) → Kept before_launch j (update s.tasks i t' j)
  unfolding Kept
  fresh j =
      update_cases (Kept before_launch) s.tasks i t' j
        (λ e x. elim (Move-Claim setup i s.ledger _ (s.tasks i) m) [
          | keeps f g z ↦ inl (subst (λ j. before_launch (s.tasks j).phase ≡ true) e (g x))
          | wins now w q z ↦ inr (
            e,
            not-Taken (s.tasks i).key s.ledger c.valid now w,
            subst (Taken (s.tasks i).key) (sym q)
                (Taken-win (s.tasks i).key s.ledger c.valid now w),
            z,
          )
          | launches p q z ↦ inl (subst (λ j. before_launch (s.tasks j).phase ≡ true) e (rw p refl))
        ])
        (λ n x. inl x)

  abbrev log' : List (ℕ × Key)
  log' = logged b ((s.tasks i).host, (s.tasks i).key) s.log

  owned' :
      (j : ℕ) → holding (update s.tasks i t' j).phase ≡ true → Taken (update s.tasks i t' j).key l'
  unfolding Kept
  owned' j x =
      subst (λ k. Taken k l') (sym (kept_key j))
        (elim (held_before j x) [
          | inl y ↦ Taken-Ran (s.tasks j).key s.ledger l' ran (c.owned j y)
          | inr (e, n, k, z) ↦ subst (λ j. Taken (s.tasks j).key l') e k
        ])

  unique' :
      (j k : ℕ)
      → holding (update s.tasks i t' j).phase ≡ true
      → holding (update s.tasks i t' k).phase ≡ true
      → (update s.tasks i t' j).key ≡ (update s.tasks i t' k).key
      → j ≡ k
  unfolding Kept
  unique' j k x y e =
      let e' : (s.tasks j).key ≡ (s.tasks k).key = sym (kept_key j) ∙ (e ∙ kept_key k) in
      elim (held_before j x) [
        | inl p ↦ elim (held_before k y) [
          | inl q ↦ c.unique j k p q e'
          | inr (f, n, w, z) ↦ absurd (
              n (
                subst (λ a. Taken a s.ledger) (e' ∙ ap (λ j. (s.tasks j).key) (sym f))
                  (c.owned j p)))
        ]
        | inr (f, n, w, z) ↦ elim (held_before k y) [
          | inl q ↦ absurd (
              n (
                subst (λ a. Taken a s.ledger) (sym e' ∙ ap (λ j. (s.tasks j).key) (sym f))
                  (c.owned k q)))
          | inr (g, _, _, _) ↦ sym f ∙ g
        ]
      ]

  -- a launch is of a task that held_before the claim, and is the first one of its turn
  launching : b ≡ true → (before_launch (s.tasks i).phase ≡ true) × (before_launch t'.phase ≡ false)
  launching e = elim (Move-Claim setup i s.ledger _ (s.tasks i) m) [
    | keeps f g z ↦ cc
    | wins now w q z ↦ cc
    | launches p q z ↦ (rw p refl, rw q refl)
  ]

  launches_same : (k : Key) → b ≡ false → launches_of k log' ≡ launches_of k s.log
  launches_same k e = rw e refl

  launches_more :
      (k : Key)
      → b ≡ true
      → launches_of k log' ≡ (if same_key k (s.tasks i).key then 1 else 0) + launches_of k s.log
  unfolding launches_of count_where
  launches_more k e = rw e refl

  once' : (k : Key) → launches_of k log' ≤ 1
  once' k = elim (Bool-cases b) [
    | inr e ↦ rw (launches_same k e) (c.once k)
    | inl e ↦ elim (Bool-cases (same_key k (s.tasks i).key)) [
      | inl q ↦
          let z : launches_of k s.log ≡ 0 =
            subst (λ a. launches_of a s.log ≡ 0) (sym (same_key-eq k (s.tasks i).key q))
              (c.quiet i (launching e).0) in
          rw (launches_more k e, q, z) (omega arith)
      | inr q ↦ rw (launches_more k e, q) (omega (arith, c.once k))
    ]
  ]

  told' : (k : Key) → 0 < launches_of k log' → Taken k l'
  told' k h = elim (Bool-cases b) [
    | inr e ↦ Taken-Ran k s.ledger l' ran (c.told k (subst (λ n. 0 < n) (launches_same k e) h))
    | inl e ↦ elim (Bool-cases (same_key k (s.tasks i).key)) [
      | inl q ↦
          subst (λ a. Taken a l') (sym (same_key-eq k (s.tasks i).key q))
            (Taken-Ran (s.tasks i).key s.ledger l' ran
              (c.owned i (before-holding (s.tasks i).phase (launching e).0)))
      | inr q ↦ Taken-Ran k s.ledger l' ran (c.told k (ground (arith, launches_more k e)))
    ]
  ]

  not_the_same : (j : ℕ) → before_launch (update s.tasks i t' j).phase ≡ true → b ≡ true → i ≢ j
  not_the_same j x e f =
      let y : (update s.tasks i t' i).phase ≡ t'.phase =
        ap (λ (t : Task). t.phase) (update_same s.tasks i t') in
      let x' : before_launch t'.phase ≡ true =
        sym (ap before_launch y)
        ∙ subst (λ j. before_launch (update s.tasks i t' j).phase ≡ true) (sym f) x in
      let z = (launching e).1 in cc

  quiet' :
      (j : ℕ)
      → before_launch (update s.tasks i t' j).phase ≡ true
      → launches_of (update s.tasks i t' j).key log' ≡ 0
  unfolding Kept
  quiet' j x =
      subst (λ a. launches_of a log' ≡ 0) (sym (kept_key j))
        (elim (fresh j x) [
          | inr (f, n, w, z) ↦
              rw (launches_same (s.tasks j).key z)
                (elim (Bool-cases (ltb 0 (launches_of (s.tasks j).key s.log))) [
                  | inl p ↦ absurd (
                      n (
                        subst (λ j. Taken (s.tasks j).key s.ledger) (sym f)
                          (c.told (s.tasks j).key (ground arith))))
                  | inr p ↦ ground arith
                ])
          | inl y ↦ elim (Bool-cases b) [
            | inr e ↦ rw (launches_same (s.tasks j).key e) (c.quiet j y)
            | inl e ↦ elim (Bool-cases (same_key (s.tasks j).key (s.tasks i).key)) [
              | inl q ↦ absurd (
                  not_the_same j x e (
                    c.unique i j (before-holding (s.tasks i).phase (launching e).0)
                      (before-holding (s.tasks j).phase y) (sym (same_key-eq _ _ q))))
              | inr q ↦ rw (launches_more (s.tasks j).key e, q) (omega (arith, c.quiet j y))
            ]
          ]
        ])

  pub Claims-Move : Claims (record s {
    ledger = l';
    hosts = update s.hosts (s.tasks i).host h';
    tasks = update s.tasks i t';
    log = log';
  })
  Claims-Move = record {
    valid = IsValid-Ran s.ledger l' ran c.valid;
    owned = owned';
    unique = unique';
    once = once';
    told = told';
    quiet = quiet';
  }
