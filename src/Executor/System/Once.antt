-- ===== src/Executor/System/Once.antt =====
-- However deliveries, executors and other writers interleave, a turn is launched at most once.
use ciacola.Base.{ℕ, ◌+◌, ◌≤◌, ◌<◌, ◌≡◌, refl, sym, ◌∙◌, ap, subst, Bool, true, false, List, arith}
use ciacola.Base.Table.{count_where}
use ciacola.Ledger.Rows.{Ledger}
use ciacola.Ledger.Operations.{IsValid}
use ciacola.Executor.Load.{Setup}
use ciacola.Executor.Settled.{Ran, Ran-refl, Ran-one}
use ciacola.Executor.Family.{update, update_cases}
use ciacola.Executor.System.{
  Key, Phase, Task, Host, System, Spawn, receive, dispatch, Step, move, spawn, host, signal, other,
  Steps, here, then_step, initial,
}
use ciacola.Executor.System.Moves.{holding, before_launch}
use ciacola.Executor.System.Taken.{Taken, Taken-Ran, IsValid-Ran}
use ciacola.Executor.System.Claims.{Claims, before-holding, launches_of, Claims-Move}

-- A step after which the same tasks hold the same claims.
module _ (s t : System) (c : Claims s) (ran : Ran s.ledger t.ledger) (same_log : t.log ≡ s.log)
    (key : (j : ℕ)
      → holding (t.tasks j).phase ≡ true
      → (holding (s.tasks j).phase ≡ true) × ((t.tasks j).key ≡ (s.tasks j).key))
    (phase : (j : ℕ)
      → before_launch (t.tasks j).phase ≡ true
      → before_launch (s.tasks j).phase ≡ true) where
  Claims-same : Claims t
  Claims-same = record {
    valid = IsValid-Ran s.ledger t.ledger ran c.valid;
    owned = λ j x.
        subst (λ k. Taken k t.ledger) (sym (key j x).1)
          (Taken-Ran (s.tasks j).key s.ledger t.ledger ran (c.owned j (key j x).0));
    unique =
        λ i j x y e. c.unique i j (key i x).0 (key j y).0 (sym (key i x).1 ∙ (e ∙ (key j y).1));
    once = λ k. rw same_log (c.once k);
    told = λ k h.
        Taken-Ran k s.ledger t.ledger ran
          (c.told k (subst (λ (a : List (ℕ × Key)). 0 < launches_of k a) same_log h));
    quiet = λ j x.
        rw (same_log, (key j (before-holding (t.tasks j).phase x)).1) (c.quiet j (phase j x));
  }

abbrev Silent : Phase → Type 0
Silent p = (holding p ≡ false) × (before_launch p ≡ false)

Spawn-Silent : {h : Host} {k : Key} {h' : Host} {p : Phase} → Spawn h k h' p → Silent p
Spawn-Silent (receive k rest a b e) = (refl, refl)
Spawn-Silent (dispatch k rest a b d e) = (refl, refl)

Claims-Spawn :
    (s : System) (n : ℕ) (k : Key) (h' : Host) (p : Phase)
    → Claims s
    → Silent p
    → Claims (record s {
      hosts = update s.hosts n h';
      tasks = update s.tasks s.next (record { host = n; key = k; phase = p; cancelled = false });
      next = s.next + 1;
    })
Claims-Spawn s n k h' p c (a, b) =
    Claims-same s _ c (Ran-refl s.ledger) refl
      (λ j.
        update_cases
          (λ j (x : Task).
            holding x.phase ≡ true → (holding (s.tasks j).phase ≡ true) × (x.key ≡ (s.tasks j).key))
          s.tasks s.next _ j (λ e x. cc) (λ n x. (x, refl)))
      (λ j.
        update_cases
          (λ j (x : Task). before_launch x.phase ≡ true → before_launch (s.tasks j).phase ≡ true)
          s.tasks s.next _ j (λ e x. cc) (λ n x. x))

Claims-signal :
    (s : System) (i : ℕ)
    → Claims s
    → Claims (record s { tasks = update s.tasks i (record (s.tasks i) { cancelled = true }) })
Claims-signal s i c =
    Claims-same s _ c (Ran-refl s.ledger) refl
      (λ j.
        update_cases
          (λ j (x : Task).
            holding x.phase ≡ true → (holding (s.tasks j).phase ≡ true) × (x.key ≡ (s.tasks j).key))
          s.tasks i _ j
          (λ e x. (subst (λ j. holding (s.tasks j).phase ≡ true) e x, ap (λ j. (s.tasks j).key) e))
          (λ n x. (x, refl)))
      (λ j.
        update_cases
          (λ j (x : Task). before_launch x.phase ≡ true → before_launch (s.tasks j).phase ≡ true)
          s.tasks i _ j (λ e x. subst (λ j. before_launch (s.tasks j).phase ≡ true) e x) (λ n x. x))

pub Claims-Step : (setup : Setup) {s t : System} → Step setup s t → Claims s → Claims t
Claims-Step setup {s} (move i l' h' t' b lt m) c = Claims-Move setup s c i l' h' t' b m
Claims-Step setup {s} (spawn n k h' p sp) c = Claims-Spawn s n k h' p c (Spawn-Silent sp)
Claims-Step setup {s} (host n h' m) c =
    Claims-same s _ c (Ran-refl s.ledger) refl (λ j x. (x, refl)) (λ j x. x)
Claims-Step setup {s} (signal n k i e) c = Claims-signal s i c
Claims-Step setup {s} (other op) c =
    Claims-same s _ c (Ran-one op s.ledger) refl (λ j x. (x, refl)) (λ j x. x)

pub Claims-Steps : (setup : Setup) {s t : System} → Steps setup s t → Claims s → Claims t
Claims-Steps setup here c = c
Claims-Steps setup (then_step p st) c = Claims-Step setup st (Claims-Steps setup p c)

pub Claims-initial :
    (l : Ledger) (polls : ℕ → Bool) (concurrency : ℕ → ℕ)
    → IsValid l
    → Claims (initial l polls concurrency)
unfolding launches_of count_where
Claims-initial l polls concurrency v = record {
  valid = v;
  owned = λ i x. cc;
  unique = λ i j x y e. cc;
  once = λ k. omega arith;
  told = λ k h. absurd (omega arith);
  quiet = λ i x. cc;
}

-- However the deliveries, executors and servers on a valid database interleave, and whatever else is
-- written to it, the provider of a turn is launched at most once, and then its turn is no longer queued.
pub launches-once :
    (setup : Setup) (l : Ledger) (polls : ℕ → Bool) (concurrency : ℕ → ℕ) (s : System) (k : Key)
    → IsValid l
    → Steps setup (initial l polls concurrency) s
    → (launches_of k s.log ≤ 1) × (0 < launches_of k s.log → Taken k s.ledger)
launches-once setup l polls concurrency s k v p =
    let c = Claims-Steps setup p (Claims-initial l polls concurrency v) in (c.once k, c.told k)
