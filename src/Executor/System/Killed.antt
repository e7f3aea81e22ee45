-- ===== src/Executor/System/Killed.antt =====
-- A kill that is durable before it is signalled is not overtaken.
pub mod Harm
use ciacola.Base.{
  ℕ, ◌≤◌, ◌≡◌, refl, sym, ◌∙◌, subst, Bool, true, false, ◌&&◌, Bool-cases, none, some, List, [],
  ◌∷◌, eqb, arith, inl, inr, ◌⊎◌,
}
use mathlib.Core.Logic.{◌≢◌}
use native.Mathlib.Decide.{ℕ_discrete}
use ciacola.Base.Table.{count_where}
use ciacola.Ledger.Rows.{Ledger}
use ciacola.Ledger.Operations.{IsValid}
use ciacola.Executor.Load.{Setup, get_turn}
use ciacola.Executor.Settled.{Ran-one}
use ciacola.Executor.Family.{update, update_cases}
use ciacola.Executor.System.{
  Key, same_key, is_active, Phase, waiting, permitted, reserved, claiming, claimed, registered,
  checked, polling, launched, finished, Task, Host, System, Move, acquire, enter, refuse, pass, win,
  lose, install, poisoned, check, already_settled, poll, wait, cancel, launch, abort, report,
  settled, kill, Spawn, receive, dispatch, Step, move, spawn, host, signal, other, Steps, here,
  then_step, initial, logged,
}
use ciacola.Executor.System.Moves.{Move-key, Move-Ran}
use ciacola.Executor.System.Taken.{Past, Over, Over-Ran}
use ciacola.Executor.System.Claims.{same_key-eq, launches_of}
use ciacola.Executor.System.Once.{Claims-Steps, Claims-initial}
use ciacola.Executor.System.Tokens.{Tokens, Tokens-Steps, has_token}
use ciacola.Executor.System.Killed.Harm.{harmless, launches_on, Doomed, Doomed-Steps}

-- What `kill` finds: no token, or the token of a task, which it cancels.
unfoldable pub Signalled : ℕ → Key → System → Type 0
Signalled n k s =
    ((s.hosts n).kills k ≡ none)
    ⊎ ((i : ℕ) × ((s.hosts n).kills k ≡ some i) × ((s.tasks i).cancelled ≡ true))

-- whether the task is being polled
abbrev polled : Task → Bool
polled t = elim t.phase [ polling ↦ true | _ ↦ false ]

told_task :
    (n : ℕ) (k : Key) (s : System) (j : ℕ)
    → Tokens s
    → (s.hosts n).kills k ≡ some j
    → (s.tasks j).cancelled ≡ true
    → polled (s.tasks j) ≡ false
    → (i : ℕ) → (s.tasks i).host ≡ n
    → (s.tasks i).key ≡ k
    → has_token (s.tasks i).phase ≡ true
    → ((s.tasks i).cancelled ≡ true) × (polled (s.tasks i) ≡ false)
unfolding Tokens
told_task n k s j tokens z c p i e f x =
    let named : (s.hosts n).kills k ≡ some i =
      subst (λ n. (s.hosts n).kills k ≡ some i) e
        (subst (λ k. (s.hosts (s.tasks i).host).kills k ≡ some i) f (tokens i x)) in
    let same : j ≡ i = ground arith in
    subst (λ i. ((s.tasks i).cancelled ≡ true) × (polled (s.tasks i) ≡ false)) same (c, p)

no_task :
    (n : ℕ) (k : Key) (s : System)
    → Tokens s
    → (s.hosts n).kills k ≡ none
    → (i : ℕ) → (s.tasks i).host ≡ n
    → (s.tasks i).key ≡ k
    → has_token (s.tasks i).phase ≢ true
unfolding Tokens
no_task n k s tokens z i e f x =
    let named : (s.hosts n).kills k ≡ some i =
      subst (λ n. (s.hosts n).kills k ≡ some i) e
        (subst (λ k. (s.hosts (s.tasks i).host).kills k ≡ some i) f (tokens i x)) in
    cc

harmless_if :
    (t : Task)
    → (has_token t.phase ≡ true → (t.cancelled ≡ true) × (polled t ≡ false))
    → harmless t ≡ true
harmless_if t h = ground arith

polling_of : (t : Task) → polled t ≡ true → t.phase ≡ polling
polling_of t h = ground arith

launches-below : (n : ℕ) (k : Key) (log : List (ℕ × Key)) → launches_on n k log ≤ launches_of k log
unfolding launches_on launches_of count_where
launches-below n k [] = omega arith
launches-below n k (e ∷ log) = ground (arith, launches-below n k log)

-- Once a turn has settled in the ledger, and an executor that executors and servers have brought to this
-- state has been told to kill it, the executor never launches the turn's provider again, whether the
-- delivery is then in its queue, waits, has claimed, has registered, or is about to be polled. Only a
-- delivery that was being polled when it was told may still launch it, at most once.
pub killed-stays :
    (setup : Setup) (l : Ledger) (polls : ℕ → Bool) (concurrency : ℕ → ℕ) (s u : System) (n : ℕ)
    (k : Key)
    → IsValid l
    → Steps setup (initial l polls concurrency) s
    → Over k s.ledger
    → Signalled n k s
    → Steps setup s u
    → (launches_on n k u.log ≡ launches_on n k s.log)
      ⊎ ((i : ℕ) × ((s.hosts n).kills k ≡ some i)
          × ((s.tasks i).phase ≡ polling)
          × (launches_on n k u.log ≤ 1))
unfolding Signalled
killed-stays setup l polls concurrency s u n k v p over signalled q =
    let tokens = Tokens-Steps setup l polls concurrency s v p in
    let stays : Doomed n k s → launches_on n k u.log ≡ launches_on n k s.log =
      λ d. (Doomed-Steps setup n k q d).1 in
    elim signalled [
      | inl z ↦ inl (
          stays (record {
            over = over;
            safe = λ i e f. harmless_if (s.tasks i) (λ x. absurd (no_task n k s tokens z i e f x));
          }))
      | inr (j, z, c) ↦ elim (Bool-cases (polled (s.tasks j))) [
        | inr w ↦ inl (
            stays (record {
              over = over;
              safe = λ i e f. harmless_if (s.tasks i) (told_task n k s j tokens z c w i e f);
            }))
        | inl w ↦ inr (
          j,
          z,
          polling_of (s.tasks j) w,
          ground (
            arith,
            launches-below n k u.log,
            (Claims-Steps setup q
                  (Claims-Steps setup p (Claims-initial l polls concurrency v))).once
                k,
          ),
        )
      ]
    ]
