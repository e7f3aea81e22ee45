-- ===== src/Executor/System/Killed/Harm.antt =====
-- A turn that has settled, none of whose tasks on an executor can launch its provider.
use ciacola.Base.{
  ℕ, ◌≡◌, refl, sym, ◌∙◌, subst, Bool, true, false, ◌&&◌, Bool-cases, List, eqb, arith, inl, inr,
}
use native.Mathlib.Decide.{ℕ_discrete}
use ciacola.Base.Table.{count_where}
use ciacola.Ledger.Rows.{Ledger}
use ciacola.Executor.Load.{Setup, get_turn}
use ciacola.Executor.Settled.{Ran-one}
use ciacola.Executor.Family.{update, update_cases}
use ciacola.Executor.System.{
  Key, same_key, is_active, Phase, waiting, permitted, reserved, claiming, claimed, registered,
  checked, polling, launched, finished, Task, Host, System, Move, acquire, enter, refuse, pass, win,
  lose, install, poisoned, check, already_settled, poll, wait, cancel, launch, abort, report,
  settled, kill, Spawn, receive, dispatch, Step, move, spawn, host, signal, other, Steps, here,
  then_step, logged,
}
use ciacola.Executor.System.Moves.{Move-key, Move-Ran}
use ciacola.Executor.System.Taken.{Past, Over, Over-Ran}
use ciacola.Executor.System.Claims.{same_key-eq}

-- a task that cannot launch the provider of a turn that has settled
abbrev pub harmless : Task → Bool
harmless t = elim t.phase [
  | waiting ↦ true
  | permitted ↦ true
  | reserved ↦ true
  | claiming ↦ true
  | claimed ↦ true
  | registered ↦ true
  | checked ↦ t.cancelled
  | polling ↦ false
  | launched ↦ true
  | finished ↦ true
]

not_running : (k : Key) (l : Ledger) → Over k l → is_active (get_turn l k.0 k.1) ≡ false
unfolding Past get_turn
not_running k l (t, found, h) = rw found (ground arith)

module _ (setup : Setup) (i : ℕ) (l : Ledger) (h : Host) (t : Task) (over : Over t.key l) where
  Move-harmless :
      {l' : Ledger} {h' : Host} {t' : Task} {b : Bool}
      → Move setup i l h t l' h' t' b
      → harmless t ≡ true
      → (harmless t' ≡ true) × (b ≡ false)
  Move-harmless (acquire p q) z = (refl, refl)
  Move-harmless (enter p) z = (refl, refl)
  Move-harmless (refuse p q) z = (refl, refl)
  Move-harmless (pass p q) z = (refl, refl)
  Move-harmless (win n p q) z = (refl, refl)
  Move-harmless (lose n p q) z = (refl, refl)
  Move-harmless (install p) z = (refl, refl)
  Move-harmless (poisoned n p) z = (refl, refl)
  Move-harmless (check p q) z = let e = not_running t.key l over in cc
  Move-harmless (already_settled p q) z = (refl, refl)
  Move-harmless (poll p q) z = let e : t.cancelled ≡ true = ground arith in cc
  Move-harmless (wait p) z = absurd (ground arith)
  Move-harmless (cancel p q) z = (refl, refl)
  Move-harmless (launch n l' x p q) z = absurd (ground arith)
  Move-harmless (abort n l' e now p q) z = (refl, refl)
  Move-harmless (report e p) z = (z, refl)
  Move-harmless (settled n r p) z = (refl, refl)
  Move-harmless (kill p q) z = (refl, refl)

Spawn-harmless :
    {h : Host} {k : Key} {h' : Host} {p : Phase} (n : ℕ)
    → Spawn h k h' p
    → harmless (record { host = n; key = k; phase = p; cancelled = false }) ≡ true
Spawn-harmless n (receive k rest a b e) = refl
Spawn-harmless n (dispatch k rest a b d e) = refl

-- how often an executor launched the provider of a turn
unfoldable pub launches_on : ℕ → Key → List (ℕ × Key) → ℕ
launches_on n k log = count_where (λ (e : ℕ × Key). eqb e.0 n && same_key k e.1) log

launches_besides :
    (log : List (ℕ × Key)) (n : ℕ) (k : Key) (b : Bool) (m : ℕ) (j : Key)
    → (m ≡ n → j ≡ k → b ≡ false)
    → launches_on n k (logged b (m, j) log) ≡ launches_on n k log
unfolding launches_on count_where
launches_besides log n k false m j h = refl
launches_besides log n k true m j h = elim (ℕ_discrete m n) [
  | no e ↦ ground arith
  | yes e ↦ elim (Bool-cases (same_key k j)) [
    | inl q ↦ let z = h e (sym (same_key-eq k j q)) in cc
    | inr q ↦ ground arith
  ]
]

cancelled_harmless :
    (t : Task) → harmless t ≡ true → harmless (record t { cancelled = true }) ≡ true
cancelled_harmless t h = ground arith

pub record Doomed (n : ℕ) (k : Key) (s : System) : Type 0 where
  pub over : Over k s.ledger
  pub safe : (i : ℕ) → (s.tasks i).host ≡ n → (s.tasks i).key ≡ k → harmless (s.tasks i) ≡ true

module _ (n : ℕ) (k : Key) (s : System) (d : Doomed n k s) where
  -- the executor did not launch the turn in the step
  abbrev After : System → Type 0
  After t = Doomed n k t × (launches_on n k t.log ≡ launches_on n k s.log)

  abbrev Safe : ℕ → Task → Type 0
  Safe i t = t.host ≡ n → t.key ≡ k → harmless t ≡ true

  Doomed-Move :
      (setup : Setup) (i : ℕ) (l' : Ledger) (h' : Host) (t' : Task) (b : Bool)
      → Move setup i s.ledger (s.hosts (s.tasks i).host) (s.tasks i) l' h' t' b
      → After (record s {
        ledger = l';
        hosts = update s.hosts (s.tasks i).host h';
        tasks = update s.tasks i t';
        log = logged b ((s.tasks i).host, (s.tasks i).key) s.log;
      })
  Doomed-Move setup i l' h' t' b m =
      let (key', host') = Move-key setup i s.ledger (s.hosts (s.tasks i).host) (s.tasks i) m in
      let step : (s.tasks i).host ≡ n → (s.tasks i).key ≡ k → (harmless t' ≡ true) × (b ≡ false) =
        λ e f.
          Move-harmless setup i s.ledger (s.hosts (s.tasks i).host) (s.tasks i)
            (subst (λ k. Over k s.ledger) (sym f) d.over) m (d.safe i e f) in
      (
        record {
          over =
              Over-Ran k s.ledger l'
                (Move-Ran setup i s.ledger (s.hosts (s.tasks i).host) (s.tasks i) m) d.over;
          safe = λ j.
              update_cases Safe s.tasks i t' j (λ x e f. (step (sym host' ∙ e) (sym key' ∙ f)).0)
                (λ x. d.safe j);
        },
        launches_besides s.log n k b (s.tasks i).host (s.tasks i).key (λ e f. (step e f).1),
      )

  Doomed-Step : (setup : Setup) {t : System} → Step setup s t → After t
  Doomed-Step setup (move i l' h' t' b lt m) = Doomed-Move setup i l' h' t' b m
  Doomed-Step setup (spawn m j h' p sp) = (
    record {
      over = d.over;
      safe =
          λ i. update_cases Safe s.tasks s.next _ i (λ x e f. Spawn-harmless m sp) (λ x. d.safe i);
    },
    refl,
  )
  Doomed-Step setup (host m h' x) = (record { over = d.over; safe = d.safe }, refl)
  Doomed-Step setup (signal m j i x) = (
    record {
      over = d.over;
      safe = λ a.
          update_cases Safe s.tasks i _ a (λ x e f. cancelled_harmless (s.tasks i) (d.safe i e f))
            (λ x. d.safe a);
    },
    refl,
  )
  Doomed-Step setup (other op) =
      (record { over = Over-Ran k s.ledger _ (Ran-one op s.ledger) d.over; safe = d.safe }, refl)

pub Doomed-Steps :
    (setup : Setup) (n : ℕ) (k : Key) {s u : System}
    → Steps setup s u
    → Doomed n k s
    → Doomed n k u × (launches_on n k u.log ≡ launches_on n k s.log)
Doomed-Steps setup n k here d = (d, refl)
Doomed-Steps setup n k (then_step {t} p st) d =
    let (d', e) = Doomed-Steps setup n k p d in
    let (d'', e') = Doomed-Step n k t d' setup st in (d'', e' ∙ e)
