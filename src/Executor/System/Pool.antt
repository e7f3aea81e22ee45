-- ===== src/Executor/System/Pool.antt =====
-- The permits of an executor and its count of deliveries add up.
use ciacola.Base.{ℕ, ◌+◌, ◌≤◌, ◌<◌, ◌≡◌, refl, sym, ◌∙◌, subst, Bool, true, false, arith}
use native.Mathlib.Decide.{dec_lt}
use mathlib.Core.Logic.{◌≢◌}
use ciacola.Ledger.Rows.{Ledger}
use ciacola.Executor.Load.{Setup}
use ciacola.Executor.Family.{
  update, update_cases, tally, tally-update, tally_suc, tally_same, weight-le-tally,
}
use ciacola.Executor.System.{
  Key, Phase, finished, Task, Host, System, Move, Spawn, HostMove, Step, move, spawn, host, signal,
  other, logged, Steps, here, then_step, initial,
}
use ciacola.Executor.System.Moves.{Move-key}
use ciacola.Executor.System.Counts.{
  inflight_of, permit_of, on, on_host, on_other, Move-counts, Spawn-counts, HostMove-counts,
}

pub record Counts (concurrency : ℕ → ℕ) (s : System) : Type 0 where
  pub idle : (i : ℕ) → s.next ≤ i → (s.tasks i).phase ≡ finished
  pub flying : (n : ℕ) → (s.hosts n).inflight ≡ tally (on inflight_of n) s.tasks s.next
  pub permitted_all :
      (n : ℕ) → (s.hosts n).permits + tally (on permit_of n) s.tasks s.next ≡ concurrency n

module _ (concurrency : ℕ → ℕ) (s : System) (c : Counts concurrency s) where
  inflight_of-le-inflight :
      (i : ℕ) → inflight_of (s.tasks i).phase ≤ (s.hosts (s.tasks i).host).inflight
  inflight_of-le-inflight i = elim (dec_lt i s.next) [
    | yes p ↦ omega (
      arith,
      c.flying (s.tasks i).host,
      weight-le-tally (on inflight_of (s.tasks i).host) s.tasks s.next i p,
      on_host inflight_of (s.tasks i).host (s.tasks i) refl,
    )
    | no p ↦ rw (c.idle i (omega arith)) (omega arith)
  ]

  module _ (setup : Setup) (i : ℕ) (l' : Ledger) (h' : Host) (t' : Task) (lt : i < s.next)
      (b : Bool) (m : Move setup i s.ledger (s.hosts (s.tasks i).host) (s.tasks i) l' h' t' b) where
    abbrev home : ℕ
    home = (s.tasks i).host

    stays : t'.host ≡ home
    stays = (Move-key setup i s.ledger _ (s.tasks i) m).1

    changed :
        (p : Phase → ℕ)
        → tally (on p home) (update s.tasks i t') s.next + p (s.tasks i).phase
          ≡ tally (on p home) s.tasks s.next + p t'.phase
    changed p = omega (
      arith,
      tally-update (on p home) s.tasks i t' s.next lt,
      on_host p home (s.tasks i) refl,
      on_host p home t' stays,
    )

    unchanged :
        (p : Phase → ℕ) (n : ℕ)
        → home ≢ n
        → tally (on p n) (update s.tasks i t') s.next ≡ tally (on p n) s.tasks s.next
    unchanged p n e =
        tally_same (on p n) s.tasks i t' s.next
          (on_other p n t' (λ x. e (sym stays ∙ x)) ∙ sym (on_other p n (s.tasks i) e))

    Counts-Move : Counts concurrency (record s {
      ledger = l';
      hosts = update s.hosts home h';
      tasks = update s.tasks i t';
      log = logged b (home, (s.tasks i).key) s.log;
    })
    Counts-Move =
        let (fly, permit, _) =
          Move-counts setup i s.ledger _ (s.tasks i) m (inflight_of-le-inflight i) in
        record {
          idle = λ j z.
              update_cases (λ j (x : Task). x.phase ≡ finished) s.tasks i t' j
                (λ e. absurd (omega arith)) (λ e. c.idle j z);
          flying = λ n.
              update_cases
                (λ n (h : Host). h.inflight ≡ tally (on inflight_of n) (update s.tasks i t') s.next)
                s.hosts home h' n
                (λ e.
                  subst (λ n. h'.inflight ≡ tally (on inflight_of n) (update s.tasks i t') s.next) e
                    (omega (arith, changed inflight_of, c.flying home, fly)))
                (λ e. c.flying n ∙ sym (unchanged inflight_of n e));
          permitted_all = λ n.
              update_cases
                (λ n (h : Host).
                  h.permits + tally (on permit_of n) (update s.tasks i t') s.next ≡ concurrency n)
                s.hosts home h' n
                (λ e.
                  subst
                    (λ n.
                      h'.permits + tally (on permit_of n) (update s.tasks i t') s.next
                      ≡ concurrency n)
                    e (omega (arith, changed permit_of, c.permitted_all home, permit)))
                (λ e. omega (arith, unchanged permit_of n e, c.permitted_all n));
        }

  module _ (n : ℕ) (k : Key) (h' : Host) (p : Phase) (sp : Spawn (s.hosts n) k h' p) where
    abbrev spawned : Task
    spawned = record { host = n; key = k; phase = p; cancelled = false }

    abbrev tasks' : ℕ → Task
    tasks' = update s.tasks s.next spawned

    more :
        (q : Phase → ℕ) → tally (on q n) tasks' (s.next + 1) ≡ q p + tally (on q n) s.tasks s.next
    more q = omega (arith, tally_suc (on q n) s.tasks s.next spawned, on_host q n spawned refl)

    no_more :
        (q : Phase → ℕ) (m : ℕ)
        → n ≢ m
        → tally (on q m) tasks' (s.next + 1) ≡ tally (on q m) s.tasks s.next
    no_more q m e = omega (arith, tally_suc (on q m) s.tasks s.next spawned, on_other q m spawned e)

    Counts-Spawn :
        Counts concurrency
          (record s { hosts = update s.hosts n h'; tasks = tasks'; next = s.next + 1 })
    Counts-Spawn =
        let (fly, permit, uncounted, _) = Spawn-counts sp in
        record {
          idle = λ j z.
              update_cases (λ j (x : Task). x.phase ≡ finished) s.tasks s.next spawned j
                (λ e. absurd (omega arith)) (λ e. c.idle j (omega arith));
          flying = λ m.
              update_cases
                (λ m (h : Host). h.inflight ≡ tally (on inflight_of m) tasks' (s.next + 1)) s.hosts
                n h' m
                (λ e.
                  subst (λ m. h'.inflight ≡ tally (on inflight_of m) tasks' (s.next + 1)) e
                    (omega (arith, more inflight_of, c.flying n, fly, uncounted)))
                (λ e. c.flying m ∙ sym (no_more inflight_of m e));
          permitted_all = λ m.
              update_cases
                (λ m (h : Host).
                  h.permits + tally (on permit_of m) tasks' (s.next + 1) ≡ concurrency m)
                s.hosts n h' m
                (λ e.
                  subst
                    (λ m. h'.permits + tally (on permit_of m) tasks' (s.next + 1) ≡ concurrency m) e
                    (omega (arith, more permit_of, c.permitted_all n, permit)))
                (λ e. omega (arith, no_more permit_of m e, c.permitted_all m));
        }

  Counts-host :
      (n : ℕ) (h' : Host)
      → HostMove s.ledger (s.hosts n) h'
      → Counts concurrency (record s { hosts = update s.hosts n h' })
  Counts-host n h' m =
      let (fly, permit, _) = HostMove-counts m in
      record {
        idle = c.idle;
        flying = λ j.
            update_cases (λ j (h : Host). h.inflight ≡ tally (on inflight_of j) s.tasks s.next)
              s.hosts n h' j
              (λ e.
                fly
                ∙ subst (λ j. (s.hosts n).inflight ≡ tally (on inflight_of j) s.tasks s.next) e
                    (c.flying n))
              (λ e. c.flying j);
        permitted_all = λ j.
            update_cases
              (λ j (h : Host). h.permits + tally (on permit_of j) s.tasks s.next ≡ concurrency j)
              s.hosts n h' j
              (λ e.
                subst (λ j. h'.permits + tally (on permit_of j) s.tasks s.next ≡ concurrency j) e
                  (omega (arith, permit, c.permitted_all n)))
              (λ e. c.permitted_all j);
      }

  Counts-signal :
      (i : ℕ)
      → Counts concurrency
          (record s { tasks = update s.tasks i (record (s.tasks i) { cancelled = true }) })
  Counts-signal i = record {
    idle = λ j z.
        update_cases (λ j (x : Task). x.phase ≡ finished) s.tasks i _ j
          (λ e. subst (λ j. (s.tasks j).phase ≡ finished) (sym e) (c.idle j z)) (λ e. c.idle j z);
    flying = λ n. c.flying n ∙ sym (tally_same (on inflight_of n) s.tasks i _ s.next refl);
    permitted_all = λ n. omega (
      arith,
      tally_same (on permit_of n) s.tasks i (record (s.tasks i) { cancelled = true }) s.next refl,
      c.permitted_all n,
    );
  }

module _ (setup : Setup) (concurrency : ℕ → ℕ) where
  Counts-Step : {s t : System} → Step setup s t → Counts concurrency s → Counts concurrency t
  Counts-Step {s} (move i l' h' t' b lt m) c = Counts-Move concurrency s c setup i l' h' t' lt b m
  Counts-Step {s} (spawn n k h' p sp) c = Counts-Spawn concurrency s c n k h' p sp
  Counts-Step {s} (host n h' m) c = Counts-host concurrency s c n h' m
  Counts-Step {s} (signal n k i e) c = Counts-signal concurrency s c i
  Counts-Step {s} (other op) c = record {
    idle = c.idle;
    flying = c.flying;
    permitted_all = c.permitted_all;
  }

  pub Counts-Steps : {s t : System} → Steps setup s t → Counts concurrency s → Counts concurrency t
  Counts-Steps here c = c
  Counts-Steps (then_step p st) c = Counts-Step st (Counts-Steps p c)

pub Counts-initial :
    (l : Ledger) (polls : ℕ → Bool) (concurrency : ℕ → ℕ)
    → Counts concurrency (initial l polls concurrency)
unfolding tally
Counts-initial l polls concurrency = record {
  idle = λ i z. refl;
  flying = λ n. refl;
  permitted_all = λ n. omega arith;
}
