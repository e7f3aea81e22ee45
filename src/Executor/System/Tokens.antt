-- ===== src/Executor/System/Tokens.antt =====
-- A task that is registered is the one that the executor's `kills` names.
use ciacola.Base.{
  ℕ, ◌+◌, ◌≡◌, refl, sym, ◌∙◌, ap, subst, Bool, true, false, Bool-cases, Option, none, some, arith,
  inl, inr,
}
use mathlib.Core.Logic.{◌≢◌}
use ciacola.Ledger.Rows.{Ledger}
use ciacola.Ledger.Operations.{IsValid}
use ciacola.Executor.Load.{Setup}
use ciacola.Executor.Family.{update, update_same, update_cases}
use ciacola.Executor.System.{
  Key, same_key, bind, Phase, waiting, permitted, reserved, claiming, claimed, registered, checked,
  polling, launched, finished, Task, Host, System, Move, acquire, enter, refuse, pass, win, lose,
  install, poisoned, check, already_settled, poll, wait, cancel, launch, abort, report, settled,
  kill, Spawn, receive, dispatch, HostMove, submit, open_gate, start, drain, tick, break, Step,
  move, spawn, host, signal, other, Steps, here, then_step, initial, logged,
}
use ciacola.Executor.System.Moves.{holding, Move-key}
use ciacola.Executor.System.Once.{Claims-Steps, Claims-initial}
use ciacola.Executor.System.Claims.{Claims, same_key-eq, same_key_self}

-- the phases in which a task's token is registered
abbrev pub has_token : Phase → Bool
has_token waiting = false
has_token permitted = false
has_token reserved = false
has_token claiming = false
has_token claimed = false
has_token registered = true
has_token checked = true
has_token polling = true
has_token launched = true
has_token finished = false

has_token-holding : (p : Phase) → has_token p ≡ true → holding p ≡ true
has_token-holding p h = ground arith

-- What a step of a task does to the tokens.
data Token (i : ℕ) (h : Host) (t : Task) (h' : Host) (t' : Task) : Type 0 where
  keeps :
      h'.kills ≡ h.kills
      → (has_token t'.phase ≡ true → has_token t.phase ≡ true)
      → Token i h t h' t'
  adds : h'.kills ≡ bind t.key (some i) h.kills → holding t.phase ≡ true → Token i h t h' t'
  drops :
      h'.kills ≡ bind t.key none h.kills
      → holding t.phase ≡ true
      → has_token t'.phase ≡ false
      → Token i h t h' t'

module _ (setup : Setup) (i : ℕ) (l : Ledger) (h : Host) (t : Task) where
  Move-Token :
      {l' : Ledger} {h' : Host} {t' : Task} {b : Bool}
      → Move setup i l h t l' h' t' b
      → Token i h t h' t'
  Move-Token (acquire p q) = keeps refl (λ x. cc)
  Move-Token (enter p) = keeps refl (λ x. cc)
  Move-Token (refuse p q) = keeps refl (λ x. cc)
  Move-Token (pass p q) = keeps refl (λ x. cc)
  Move-Token (win n p q) = keeps refl (λ x. cc)
  Move-Token (lose n p q) = keeps refl (λ x. cc)
  Move-Token (install p) = adds refl (rw p refl)
  Move-Token (poisoned n p) = keeps refl (λ x. cc)
  Move-Token (check p q) = keeps refl (λ x. rw p refl)
  Move-Token (already_settled p q) = drops refl (rw p refl) refl
  Move-Token (poll p q) = keeps refl (λ x. rw p refl)
  Move-Token (wait p) = keeps refl (λ x. rw p refl)
  Move-Token (cancel p q) = drops refl (rw p refl) refl
  Move-Token (launch n l' x p q) = keeps refl (λ y. rw p refl)
  Move-Token (abort n l' e now p q) = drops refl (rw p refl) refl
  Move-Token (report e p) = keeps refl (λ x. x)
  Move-Token (settled n r p) = drops refl (rw p refl) refl
  Move-Token (kill p q) = drops refl (rw p refl) refl

Spawn-kills :
    {h : Host} {k : Key} {h' : Host} {p : Phase}
    → Spawn h k h' p
    → (h'.kills ≡ h.kills) × (has_token p ≡ false)
Spawn-kills (receive k rest a b e) = (refl, refl)
Spawn-kills (dispatch k rest a b d e) = (refl, refl)

HostMove-kills : {l : Ledger} {h h' : Host} → HostMove l h h' → h'.kills ≡ h.kills
HostMove-kills (submit k a) = refl
HostMove-kills open_gate = refl
HostMove-kills (start a b) = refl
HostMove-kills drain = refl
HostMove-kills (tick a b d e) = refl
HostMove-kills (break a b) = refl

bind_self : (k : Key) (v : Option ℕ) (f : Key → Option ℕ) → bind k v f k ≡ v
unfolding bind
bind_self k v f = rw (same_key_self k) refl

bind_other : (k j : Key) (v : Option ℕ) (f : Key → Option ℕ) → k ≢ j → bind k v f j ≡ f j
unfolding bind
bind_other k j v f h = elim (Bool-cases (same_key k j)) [
  | inl e ↦ absurd (h (same_key-eq k j e))
  | inr e ↦ rw e refl
]

unfoldable pub Tokens : System → Type 0
Tokens s =
    (j : ℕ)
    → has_token (s.tasks j).phase ≡ true
    → (s.hosts (s.tasks j).host).kills (s.tasks j).key ≡ some j

module _ (s : System) (c : Claims s) (k : Tokens s) where
  module _ (setup : Setup) (i : ℕ) (l' : Ledger) (h' : Host) (t' : Task) (b : Bool)
      (m : Move setup i s.ledger (s.hosts (s.tasks i).host) (s.tasks i) l' h' t' b) where
    abbrev home : ℕ
    home = (s.tasks i).host

    -- the task that steps
    itself : has_token t'.phase ≡ true → h'.kills (s.tasks i).key ≡ some i
    unfolding Tokens
    itself x = elim (Move-Token setup i s.ledger (s.hosts home) (s.tasks i) m) [
      | keeps e f ↦ ap (λ f. f (s.tasks i).key) e ∙ k i (f x)
      | adds e f ↦
          ap (λ f. f (s.tasks i).key) e ∙ bind_self (s.tasks i).key (some i) (s.hosts home).kills
      | drops e f g ↦ cc
    ]

    another :
        (j : ℕ)
        → i ≢ j
        → holding (s.tasks i).phase ≡ true
        → has_token (s.tasks j).phase ≡ true
        → (s.tasks i).key ≢ (s.tasks j).key
    another j n f x e = n (c.unique i j f (has_token-holding (s.tasks j).phase x) e)

    -- another task of its executor
    beside :
        (j : ℕ)
        → i ≢ j
        → (s.tasks j).host ≡ home
        → has_token (s.tasks j).phase ≡ true
        → h'.kills (s.tasks j).key ≡ some j
    unfolding Tokens
    beside j n e x =
        let was : (s.hosts home).kills (s.tasks j).key ≡ some j =
          subst (λ n. (s.hosts n).kills (s.tasks j).key ≡ some j) e (k j x) in
        elim (Move-Token setup i s.ledger (s.hosts home) (s.tasks i) m) [
          | keeps e f ↦ ap (λ f. f (s.tasks j).key) e ∙ was
          | adds e f ↦
              ap (λ f. f (s.tasks j).key) e
              ∙ (bind_other (s.tasks i).key (s.tasks j).key (some i) (s.hosts home).kills
                    (another j n f x)
                  ∙ was)
          | drops e f g ↦
              ap (λ f. f (s.tasks j).key) e
              ∙ (bind_other (s.tasks i).key (s.tasks j).key none (s.hosts home).kills
                    (another j n f x)
                  ∙ was)
        ]

    Tokens-Move : Tokens (record s {
      ledger = l';
      hosts = update s.hosts home h';
      tasks = update s.tasks i t';
      log = logged b (home, (s.tasks i).key) s.log;
    })
    unfolding Tokens
    Tokens-Move j =
        let (same_key', same_host) = Move-key setup i s.ledger (s.hosts home) (s.tasks i) m in
        update_cases
          (λ j (t : Task).
            has_token t.phase ≡ true → (update s.hosts home h' t.host).kills t.key ≡ some j)
          s.tasks i t' j
          (λ e x.
            subst (λ j. (update s.hosts home h' t'.host).kills t'.key ≡ some j) e
              (rw (same_key', same_host, update_same s.hosts home h') (itself x)))
          (λ e x.
            update_cases (λ n (h : Host). n ≡ (s.tasks j).host → h.kills (s.tasks j).key ≡ some j)
              s.hosts home h' (s.tasks j).host (λ y z. beside j e (sym y) x) (λ y z. k j x) refl)

  Tokens-host :
      (n : ℕ) (h' : Host)
      → h'.kills ≡ (s.hosts n).kills
      → (j : ℕ) (t : Task) → (s.hosts t.host).kills t.key ≡ some j
      → (update s.hosts n h' t.host).kills t.key ≡ some j
  Tokens-host n h' e j t z =
      update_cases (λ a (h : Host). a ≡ t.host → h.kills t.key ≡ some j) s.hosts n h' t.host
        (λ x y. ap (λ f. f t.key) e ∙ subst (λ n. (s.hosts n).kills t.key ≡ some j) (sym x) z)
        (λ x y. z) refl

  Tokens-Spawn :
      (n : ℕ) (key : Key) (h' : Host) (p : Phase)
      → Spawn (s.hosts n) key h' p
      → Tokens (record s {
        hosts = update s.hosts n h';
        tasks =
            update s.tasks s.next (record { host = n; key = key; phase = p; cancelled = false });
        next = s.next + 1;
      })
  unfolding Tokens
  Tokens-Spawn n key h' p sp j =
      let (same, unlisted) = Spawn-kills sp in
      update_cases
        (λ j (t : Task).
          has_token t.phase ≡ true → (update s.hosts n h' t.host).kills t.key ≡ some j)
        s.tasks s.next _ j (λ e x. cc) (λ e x. Tokens-host n h' same j (s.tasks j) (k j x))

  Tokens-signal :
      (i : ℕ)
      → Tokens (record s { tasks = update s.tasks i (record (s.tasks i) { cancelled = true }) })
  unfolding Tokens
  Tokens-signal i j =
      update_cases
        (λ j (t : Task). has_token t.phase ≡ true → (s.hosts t.host).kills t.key ≡ some j) s.tasks i
        _ j
        (λ e x. subst (λ j. (s.hosts (s.tasks i).host).kills (s.tasks i).key ≡ some j) e (k i x))
        (λ e x. k j x)

  Tokens-Step : (setup : Setup) {t : System} → Step setup s t → Tokens t
  unfolding Tokens
  Tokens-Step setup (move i l' h' t' b lt m) = Tokens-Move setup i l' h' t' b m
  Tokens-Step setup (spawn n key h' p sp) = Tokens-Spawn n key h' p sp
  Tokens-Step setup (host n h' m) = λ j x. Tokens-host n h' (HostMove-kills m) j (s.tasks j) (k j x)
  Tokens-Step setup (signal n key i e) = Tokens-signal i
  Tokens-Step setup (other op) = λ j x. k j x

-- in every state that executors reach
pub Tokens-Steps :
    (setup : Setup) (l : Ledger) (polls : ℕ → Bool) (concurrency : ℕ → ℕ) (s : System)
    → IsValid l
    → Steps setup (initial l polls concurrency) s
    → Tokens s
unfolding Tokens
Tokens-Steps setup l polls concurrency s v here = λ j x. cc
Tokens-Steps setup l polls concurrency s v (then_step {t} p st) =
    Tokens-Step t (Claims-Steps setup p (Claims-initial l polls concurrency v))
      (Tokens-Steps setup l polls concurrency t v p) setup st
