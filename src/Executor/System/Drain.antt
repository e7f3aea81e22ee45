-- ===== src/Executor/System/Drain.antt =====
-- A pool is never exceeded, and an executor that has drained stays so.
use ciacola.Base.{ℕ, ◌≤◌, ◌≡◌, refl, sym, ◌∙◌, subst, Bool, true, false, List, eqb, arith}
use ciacola.Base.Table.{count_where}
use native.Mathlib.Decide.{dec_lt, ℕ_discrete}
use mathlib.Core.Logic.{◌≢◌}
use ciacola.Ledger.Rows.{Ledger}
use ciacola.Executor.Load.{Setup}
use ciacola.Executor.Family.{update, update_cases, tally, weight-le-tally, tally-le}
use ciacola.Executor.System.{
  Key, Phase, waiting, permitted, reserved, claiming, claimed, registered, checked, polling,
  launched, finished, Task, Host, System, Move, acquire, enter, refuse, pass, win, lose, install,
  poisoned, check, already_settled, poll, wait, cancel, launch, abort, report, settled, kill, Spawn,
  receive, dispatch, Step, move, spawn, host, signal, other, Steps, here, then_step, initial,
  logged,
}
use ciacola.Executor.System.Moves.{holding, Move-key}
use ciacola.Executor.System.Counts.{inflight_of, permit_of, on, HostMove-counts, Spawn-counts}
use ciacola.Executor.System.Pool.{Counts, Counts-Steps, Counts-initial}

-- the provider is_active
abbrev pub is_launched : Phase → ℕ
is_launched waiting = 0
is_launched permitted = 0
is_launched reserved = 0
is_launched claiming = 0
is_launched claimed = 0
is_launched registered = 0
is_launched checked = 0
is_launched polling = 0
is_launched launched = 1
is_launched finished = 0

launched-le-inflight_of : (n : ℕ) (t : Task) → on is_launched n t ≤ on inflight_of n t
launched-le-inflight_of n t = ground arith

on-inflight_of-le-permit_of : (n : ℕ) (t : Task) → on inflight_of n t ≤ on permit_of n t
on-inflight_of-le-permit_of n t = ground arith

-- In every state that executors reach, `inflight` is the number of deliveries from their reservation to
-- their end, those whose provider is_active are among them, and they are at most the executor's concurrency.
pub inflight-bounded :
    (setup : Setup) (l : Ledger) (polls : ℕ → Bool) (concurrency : ℕ → ℕ) (s : System) (n : ℕ)
    → Steps setup (initial l polls concurrency) s
    → ((s.hosts n).inflight ≡ tally (on inflight_of n) s.tasks s.next)
      × (tally (on is_launched n) s.tasks s.next ≤ (s.hosts n).inflight)
      × ((s.hosts n).inflight ≤ concurrency n)
inflight-bounded setup l polls concurrency s n p =
    let c = Counts-Steps setup concurrency p (Counts-initial l polls concurrency) in
    (
      c.flying n,
      omega (
        arith,
        c.flying n,
        tally-le (on is_launched n) (on inflight_of n) (launched-le-inflight_of n) s.tasks s.next,
      ),
      omega (
        arith,
        c.flying n,
        c.permitted_all n,
        tally-le (on inflight_of n) (on permit_of n) (on-inflight_of-le-permit_of n) s.tasks s.next,
      ),
    )

-- the phases that a drained executor can leave its tasks in
abbrev before_claim : Phase → Bool
before_claim waiting = true
before_claim permitted = true
before_claim reserved = true
before_claim claiming = false
before_claim claimed = false
before_claim registered = false
before_claim checked = false
before_claim polling = false
before_claim launched = false
before_claim finished = true

module _ (setup : Setup) (i : ℕ) (l : Ledger) (h : Host) (t : Task) where
  Move-drained :
      {l' : Ledger} {h' : Host} {t' : Task} {b : Bool}
      → Move setup i l h t l' h' t' b
      → h.stopping ≡ true
      → before_claim t.phase ≡ true
      → (before_claim t'.phase ≡ true) × (b ≡ false) × (h'.stopping ≡ true)
  Move-drained (acquire p q) s z = (refl, refl, s)
  Move-drained (enter p) s z = (refl, refl, s)
  Move-drained (refuse p q) s z = (refl, refl, s)
  Move-drained (pass p q) s z = cc
  Move-drained (win n p q) s z = cc
  Move-drained (lose n p q) s z = cc
  Move-drained (install p) s z = cc
  Move-drained (poisoned n p) s z = cc
  Move-drained (check p q) s z = cc
  Move-drained (already_settled p q) s z = cc
  Move-drained (poll p q) s z = cc
  Move-drained (wait p) s z = cc
  Move-drained (cancel p q) s z = cc
  Move-drained (launch n l' x p q) s z = cc
  Move-drained (abort n l' e now p q) s z = cc
  Move-drained (report e p) s z = cc
  Move-drained (settled n r p) s z = cc
  Move-drained (kill p q) s z = cc

Spawn-before : {h : Host} {k : Key} {h' : Host} {p : Phase} → Spawn h k h' p → before_claim p ≡ true
Spawn-before (receive k rest a b e) = refl
Spawn-before (dispatch k rest a b d e) = refl

-- how many providers an executor has launched
unfoldable pub launches_by : ℕ → List (ℕ × Key) → ℕ
launches_by n log = count_where (λ (e : ℕ × Key). eqb e.0 n) log

launches_elsewhere :
    (log : List (ℕ × Key)) (n : ℕ) (b : Bool) (m : ℕ) (k : Key)
    → m ≢ n
    → launches_by n (logged b (m, k) log) ≡ launches_by n log
unfolding launches_by count_where
launches_elsewhere log n true m k h = ground arith
launches_elsewhere log n false m k h = refl

record Drained (n : ℕ) (s : System) : Type 0 where
  stopped : (s.hosts n).stopping ≡ true
  still : (i : ℕ) → (s.tasks i).host ≡ n → before_claim (s.tasks i).phase ≡ true

module _ (n : ℕ) (s : System) (d : Drained n s) where
  -- the executor launched nothing in the step
  abbrev After : System → Type 0
  After t = Drained n t × (launches_by n t.log ≡ launches_by n s.log)

  Drained-Move :
      (setup : Setup) (i : ℕ) (l' : Ledger) (h' : Host) (t' : Task) (b : Bool)
      → Move setup i s.ledger (s.hosts (s.tasks i).host) (s.tasks i) l' h' t' b
      → After (record s {
        ledger = l';
        hosts = update s.hosts (s.tasks i).host h';
        tasks = update s.tasks i t';
        log = logged b ((s.tasks i).host, (s.tasks i).key) s.log;
      })
  Drained-Move setup i l' h' t' b m =
      let (_, same_host) = Move-key setup i s.ledger (s.hosts (s.tasks i).host) (s.tasks i) m in
      elim (ℕ_discrete (s.tasks i).host n) [
        | yes e ↦
            let (before, quiet, stop) =
              Move-drained setup i s.ledger (s.hosts (s.tasks i).host) (s.tasks i) m
                (subst (λ n. (s.hosts n).stopping ≡ true) (sym e) d.stopped) (d.still i e) in
            (
              record {
                stopped =
                    update_cases (λ j (h : Host). j ≡ n → h.stopping ≡ true) s.hosts
                      (s.tasks i).host h' n (λ x y. stop) (λ x y. d.stopped) refl;
                still = λ j.
                    update_cases (λ j (t : Task). t.host ≡ n → before_claim t.phase ≡ true) s.tasks
                      i t' j (λ x y. before) (λ x y. d.still j y);
              },
              rw quiet refl,
            )
        | no e ↦ (
          record {
            stopped =
                update_cases (λ j (h : Host). j ≡ n → h.stopping ≡ true) s.hosts (s.tasks i).host h'
                  n (λ x y. absurd (e x)) (λ x y. d.stopped) refl;
            still = λ j.
                update_cases (λ j (t : Task). t.host ≡ n → before_claim t.phase ≡ true) s.tasks i t'
                  j (λ x y. absurd (e (sym same_host ∙ y))) (λ x y. d.still j y);
          },
          launches_elsewhere s.log n b (s.tasks i).host (s.tasks i).key e,
        )
      ]

  Drained-Step : (setup : Setup) {t : System} → Step setup s t → After t
  Drained-Step setup (move i l' h' t' b lt m) = Drained-Move setup i l' h' t' b m
  Drained-Step setup (spawn j k h' p sp) = (
    record {
      stopped =
          update_cases (λ a (h : Host). a ≡ n → h.stopping ≡ true) s.hosts j h' n
            (λ x y.
              (Spawn-counts sp).3 ∙ subst (λ n. (s.hosts n).stopping ≡ true) (sym x) d.stopped)
            (λ x y. d.stopped) refl;
      still = λ i.
          update_cases (λ a (t : Task). t.host ≡ n → before_claim t.phase ≡ true) s.tasks s.next _ i
            (λ x y. Spawn-before sp) (λ x y. d.still i y);
    },
    refl,
  )
  Drained-Step setup (host j h' m) = (
    record {
      stopped =
          update_cases (λ a (h : Host). a ≡ n → h.stopping ≡ true) s.hosts j h' n
            (λ x y.
              (HostMove-counts m).2 (subst (λ n. (s.hosts n).stopping ≡ true) (sym x) d.stopped))
            (λ x y. d.stopped) refl;
      still = d.still;
    },
    refl,
  )
  Drained-Step setup (signal j k i e) = (
    record {
      stopped = d.stopped;
      still = λ a.
          update_cases (λ a (t : Task). t.host ≡ n → before_claim t.phase ≡ true) s.tasks i _ a
            (λ x y. d.still i y) (λ x y. d.still a y);
    },
    refl,
  )
  Drained-Step setup (other op) = (record { stopped = d.stopped; still = d.still }, refl)

Drained-Steps :
    (setup : Setup) (n : ℕ) {s u : System}
    → Steps setup s u
    → Drained n s
    → Drained n u × (launches_by n u.log ≡ launches_by n s.log)
Drained-Steps setup n here d = (d, refl)
Drained-Steps setup n (then_step {t} p st) d =
    let (d', e) = Drained-Steps setup n p d in
    let (d'', e') = Drained-Step n t d' setup st in (d'', e' ∙ e)

not_inflight :
    (n : ℕ) (t : Task) → on inflight_of n t ≡ 0 → t.host ≡ n → before_claim t.phase ≡ true
not_inflight n t z e = ground arith

not_holding : (p : Phase) → before_claim p ≡ true → holding p ≡ false
not_holding p h = ground arith

still_if_idle :
    (concurrency : ℕ → ℕ) (n : ℕ) (s : System)
    → Counts concurrency s
    → (s.hosts n).inflight ≡ 0
    → (i : ℕ) → (s.tasks i).host ≡ n
    → before_claim (s.tasks i).phase ≡ true
still_if_idle concurrency n s c z i e = elim (dec_lt i s.next) [
  | yes p ↦
      not_inflight n (s.tasks i)
        (omega (arith, c.flying n, z, weight-le-tally (on inflight_of n) s.tasks s.next i p)) e
  | no p ↦ rw (c.idle i (omega arith)) refl
]

-- An executor that executors and servers have brought to a state where it is stopping and `inflight` is 0
-- launches no provider from then on and holds no claim, whatever is submitted to it, signalled, or waits
-- for a permit.
pub drained-stays :
    (setup : Setup) (l : Ledger) (polls : ℕ → Bool) (concurrency : ℕ → ℕ) (s u : System) (n : ℕ)
    → Steps setup (initial l polls concurrency) s
    → (s.hosts n).stopping ≡ true
    → (s.hosts n).inflight ≡ 0
    → Steps setup s u
    → (launches_by n u.log ≡ launches_by n s.log)
      × ((i : ℕ) → (u.tasks i).host ≡ n → holding (u.tasks i).phase ≡ false)
drained-stays setup l polls concurrency s u n p stop z q =
    let c = Counts-Steps setup concurrency p (Counts-initial l polls concurrency) in
    let (d, e) =
      Drained-Steps setup n q
        (record { stopped = stop; still = still_if_idle concurrency n s c z }) in
    (e, λ i h. not_holding (u.tasks i).phase (d.still i h))
