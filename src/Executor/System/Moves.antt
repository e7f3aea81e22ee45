-- ===== src/Executor/System/Moves.antt =====
-- What every step of a task has in common.
use ciacola.Base.{ℕ, String, ◌≡◌, refl, ap, subst, Bool, true, false, Result, ok, err}
use ciacola.Agent.Run.{Launch}
use ciacola.Ledger.Rows.{Ledger}
use ciacola.Ledger.Turns.{claim_turn}
use ciacola.Executor.Load.{Setup, DispatchError, prepare}
use ciacola.Executor.Settled.{
  Ran, Ran-refl, Ran-trans, Ran-prepare, Ran-record_event, Ran-settle, Ran-claim, Ran-abort,
}
use ciacola.Executor.System.{
  Phase, waiting, permitted, reserved, claiming, claimed, registered, checked, polling, launched,
  finished, Task, Host, Move, acquire, enter, refuse, pass, win, lose, install, poisoned, check,
  already_settled, poll, wait, cancel, launch, abort, report, settled, kill,
}

-- the task has won the claim of its turn, and has not ended
abbrev pub holding : Phase → Bool
holding claimed = true
holding registered = true
holding checked = true
holding polling = true
holding launched = true
holding waiting = false
holding permitted = false
holding reserved = false
holding claiming = false
holding finished = false

-- the same, and it has not launched its provider
abbrev pub before_launch : Phase → Bool
before_launch claimed = true
before_launch registered = true
before_launch checked = true
before_launch polling = true
before_launch launched = false
before_launch waiting = false
before_launch permitted = false
before_launch reserved = false
before_launch claiming = false
before_launch finished = false

-- What a step does to a claim.
pub data Claim (l : Ledger) (t : Task) (l' : Ledger) (t' : Task) (b : Bool) : Type 0 where
  keeps :
      (holding t'.phase ≡ true → holding t.phase ≡ true)
      → (before_launch t'.phase ≡ true → before_launch t.phase ≡ true)
      → b ≡ false
      → Claim l t l' t' b
  wins :
      (now_ms : ℕ)
      → (claim_turn l t.key.0 t.key.1 now_ms).1 ≡ true
      → l' ≡ (claim_turn l t.key.0 t.key.1 now_ms).0
      → b ≡ false
      → Claim l t l' t' b
  launches : t.phase ≡ polling → t'.phase ≡ launched → b ≡ true → Claim l t l' t' b

module _ (setup : Setup) (i : ℕ) (l : Ledger) (h : Host) (t : Task) where
  pub Move-key :
      {l' : Ledger} {h' : Host} {t' : Task} {b : Bool}
      → Move setup i l h t l' h' t' b
      → (t'.key ≡ t.key) × (t'.host ≡ t.host)
  Move-key (acquire p q) = (refl, refl)
  Move-key (enter p) = (refl, refl)
  Move-key (refuse p q) = (refl, refl)
  Move-key (pass p q) = (refl, refl)
  Move-key (win n p q) = (refl, refl)
  Move-key (lose n p q) = (refl, refl)
  Move-key (install p) = (refl, refl)
  Move-key (poisoned n p) = (refl, refl)
  Move-key (check p q) = (refl, refl)
  Move-key (already_settled p q) = (refl, refl)
  Move-key (poll p q) = (refl, refl)
  Move-key (wait p) = (refl, refl)
  Move-key (cancel p q) = (refl, refl)
  Move-key (launch n l' x p q) = (refl, refl)
  Move-key (abort n l' e now p q) = (refl, refl)
  Move-key (report e p) = (refl, refl)
  Move-key (settled n r p) = (refl, refl)
  Move-key (kill p q) = (refl, refl)

  Ran-prepared :
      (next : String) (l' : Ledger) (r : Result DispatchError Launch)
      → prepare setup l t.key.0 t.key.1 next ≡ (l', r)
      → Ran l l'
  Ran-prepared next l' r e =
      subst (Ran l) (ap (λ (p : Ledger × Result DispatchError Launch). p.0) e)
        (Ran-prepare t.key.0 t.key.1 setup next l)

  pub Move-Ran :
      {l' : Ledger} {h' : Host} {t' : Task} {b : Bool} → Move setup i l h t l' h' t' b → Ran l l'
  Move-Ran (acquire p q) = Ran-refl l
  Move-Ran (enter p) = Ran-refl l
  Move-Ran (refuse p q) = Ran-refl l
  Move-Ran (pass p q) = Ran-refl l
  Move-Ran (win n p q) = Ran-claim t.key.0 t.key.1 n l
  Move-Ran (lose n p q) = Ran-claim t.key.0 t.key.1 n l
  Move-Ran (install p) = Ran-refl l
  Move-Ran (poisoned n p) = Ran-abort t.key.0 t.key.1 _ n l
  Move-Ran (check p q) = Ran-refl l
  Move-Ran (already_settled p q) = Ran-refl l
  Move-Ran (poll p q) = Ran-refl l
  Move-Ran (wait p) = Ran-refl l
  Move-Ran (cancel p q) = Ran-refl l
  Move-Ran (launch n l' x p q) = Ran-prepared n l' (ok x) q
  Move-Ran (abort n l' e now p q) =
      Ran-trans l l' _ (Ran-prepared n l' (err e) q) (Ran-abort t.key.0 t.key.1 _ now l')
  Move-Ran (report e p) = Ran-record_event t.key.0 t.key.1 e l
  Move-Ran (settled n r p) = Ran-settle t.key.0 t.key.1 n r l
  Move-Ran (kill p q) = Ran-refl l

  pub Move-Claim :
      {l' : Ledger} {h' : Host} {t' : Task} {b : Bool}
      → Move setup i l h t l' h' t' b
      → Claim l t l' t' b
  Move-Claim (acquire p q) = keeps (λ x. cc) (λ x. cc) refl
  Move-Claim (enter p) = keeps (λ x. cc) (λ x. cc) refl
  Move-Claim (refuse p q) = keeps (λ x. cc) (λ x. cc) refl
  Move-Claim (pass p q) = keeps (λ x. cc) (λ x. cc) refl
  Move-Claim (win n p q) = wins n q refl refl
  Move-Claim (lose n p q) = keeps (λ x. cc) (λ x. cc) refl
  Move-Claim (install p) = keeps (λ x. rw p refl) (λ x. rw p refl) refl
  Move-Claim (poisoned n p) = keeps (λ x. cc) (λ x. cc) refl
  Move-Claim (check p q) = keeps (λ x. rw p refl) (λ x. rw p refl) refl
  Move-Claim (already_settled p q) = keeps (λ x. cc) (λ x. cc) refl
  Move-Claim (poll p q) = keeps (λ x. rw p refl) (λ x. rw p refl) refl
  Move-Claim (wait p) = keeps (λ x. rw p refl) (λ x. rw p refl) refl
  Move-Claim (cancel p q) = keeps (λ x. cc) (λ x. cc) refl
  Move-Claim (launch n l' x p q) = launches p refl refl
  Move-Claim (abort n l' e now p q) = keeps (λ x. cc) (λ x. cc) refl
  Move-Claim (report e p) = keeps (λ x. x) (λ x. x) refl
  Move-Claim (settled n r p) = keeps (λ x. cc) (λ x. cc) refl
  Move-Claim (kill p q) = keeps (λ x. cc) (λ x. cc) refl
