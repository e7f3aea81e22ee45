-- ===== src/Executor/System/Counts.antt =====
-- What every step does to the permits and to the count of deliveries of an executor.
use ciacola.Base.{ℕ, ◌+◌, ◌≤◌, ◌≡◌, refl, ap, Bool, true, if◌then◌else◌, eqb, arith}
use mathlib.Core.Logic.{◌≢◌}
use ciacola.Ledger.Rows.{Ledger}
use ciacola.Executor.Load.{Setup}
use ciacola.Executor.System.{
  Key, Phase, waiting, permitted, reserved, claiming, claimed, registered, checked, polling,
  launched, finished, Task, Host, leave, Move, acquire, enter, refuse, pass, win, lose, install,
  poisoned, check, already_settled, poll, wait, cancel, launch, abort, report, settled, kill, Spawn,
  receive, dispatch, HostMove, submit, open_gate, start, drain, tick, break,
}

-- the phases that `inflight` counts, and those that hold a permit
abbrev pub inflight_of : Phase → ℕ
inflight_of waiting = 0
inflight_of permitted = 0
inflight_of reserved = 1
inflight_of claiming = 1
inflight_of claimed = 1
inflight_of registered = 1
inflight_of checked = 1
inflight_of polling = 1
inflight_of launched = 1
inflight_of finished = 0

abbrev pub permit_of : Phase → ℕ
permit_of waiting = 0
permit_of permitted = 1
permit_of reserved = 1
permit_of claiming = 1
permit_of claimed = 1
permit_of registered = 1
permit_of checked = 1
permit_of polling = 1
permit_of launched = 1
permit_of finished = 0

-- how many tasks of an executor are in a phase of the kind
abbrev pub on : (Phase → ℕ) → ℕ → Task → ℕ
on p n t = if eqb t.host n then p t.phase else 0

pub on_host : (p : Phase → ℕ) (n : ℕ) (t : Task) → t.host ≡ n → on p n t ≡ p t.phase
on_host p n t h = ground arith

pub on_other : (p : Phase → ℕ) (n : ℕ) (t : Task) → t.host ≢ n → on p n t ≡ 0
on_other p n t h = ground arith

pub inflight_of-le-permit_of : (p : Phase) → inflight_of p ≤ permit_of p
inflight_of-le-permit_of p = ground arith

module _ (setup : Setup) (i : ℕ) (l : Ledger) (h : Host) (t : Task) where
  left :
      {c a : ℕ}
      → c ≡ 1
      → a ≡ 1
      → c ≤ h.inflight
      → ((leave h).inflight + c ≡ h.inflight + 0)
        × ((leave h).permits + 0 ≡ h.permits + a)
        × (h.stopping ≡ h.stopping)
  left x y z = (omega (arith, x, z), omega (arith, y), refl)

  -- What a step of a task takes and gives back.
  pub Move-counts :
      {l' : Ledger} {h' : Host} {t' : Task} {b : Bool}
      → Move setup i l h t l' h' t' b
      → inflight_of t.phase ≤ h.inflight
      → (h'.inflight + inflight_of t.phase ≡ h.inflight + inflight_of t'.phase)
        × (h'.permits + permit_of t'.phase ≡ h.permits + permit_of t.phase)
        × (h'.stopping ≡ h.stopping)
  Move-counts (acquire p q) z = rw p (omega arith, omega arith, refl)
  Move-counts (enter p) z = rw p (omega arith, omega arith, refl)
  Move-counts (refuse p q) z = left (ap inflight_of p) (ap permit_of p) z
  Move-counts (pass p q) z = rw p (omega arith, omega arith, refl)
  Move-counts (win n p q) z = rw p (omega arith, omega arith, refl)
  Move-counts (lose n p q) z = left (ap inflight_of p) (ap permit_of p) z
  Move-counts (install p) z = rw p (omega arith, omega arith, refl)
  Move-counts (poisoned n p) z = left (ap inflight_of p) (ap permit_of p) z
  Move-counts (check p q) z = rw p (omega arith, omega arith, refl)
  Move-counts (already_settled p q) z = left (ap inflight_of p) (ap permit_of p) z
  Move-counts (poll p q) z = rw p (omega arith, omega arith, refl)
  Move-counts (wait p) z = rw p (omega arith, omega arith, refl)
  Move-counts (cancel p q) z = left (ap inflight_of p) (ap permit_of p) z
  Move-counts (launch n l' x p q) z = rw p (omega arith, omega arith, refl)
  Move-counts (abort n l' e now p q) z = left (ap inflight_of p) (ap permit_of p) z
  Move-counts (report e p) z = rw p (omega arith, omega arith, refl)
  Move-counts (settled n r p) z = left (ap inflight_of p) (ap permit_of p) z
  Move-counts (kill p q) z = left (ap inflight_of p) (ap permit_of p) z

pub Spawn-counts :
    {h : Host} {k : Key} {h' : Host} {p : Phase}
    → Spawn h k h' p
    → (h'.inflight ≡ h.inflight)
      × (h'.permits + permit_of p ≡ h.permits)
      × (inflight_of p ≡ 0)
      × (h'.stopping ≡ h.stopping)
Spawn-counts (receive k rest a b e) = (refl, omega arith, refl, refl)
Spawn-counts (dispatch k rest a b d e) = (refl, omega arith, refl, refl)

pub HostMove-counts :
    {l : Ledger} {h h' : Host}
    → HostMove l h h'
    → (h'.inflight ≡ h.inflight)
      × (h'.permits ≡ h.permits)
      × (h.stopping ≡ true → h'.stopping ≡ true)
HostMove-counts (submit k a) = (refl, refl, λ x. x)
HostMove-counts open_gate = (refl, refl, λ x. x)
HostMove-counts (start a b) = (refl, refl, λ x. x)
HostMove-counts drain = (refl, refl, λ x. refl)
HostMove-counts (tick a b d e) = (refl, refl, λ x. x)
HostMove-counts (break a b) = (refl, refl, λ x. x)
