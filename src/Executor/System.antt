-- ===== src/Executor/System.antt =====
-- crates/ciacola-core/src/exec.rs and polling.rs: executors, one to a server, that share a database. What
-- is_active without waiting is one step. Each delivery is a task; the steps of tasks, of their owners and of
-- all else that writes to the ledger come in any order.
pub mod Moves
pub mod Taken
pub mod Claims
pub mod Once
pub mod Counts
pub mod Pool
pub mod Drain
pub mod Tokens
pub mod Killed
use ciacola.Base.{
  ℕ, ◌+◌, ◌-◌, ◌<◌, String, ◌==◌, ◌≡◌, Bool, true, false, not, ◌&&◌, Option, none, some, List, [],
  ◌∷◌, ◌++◌, if◌then◌else◌, eqb, Result, ok, err,
}
use ciacola.Agent.Exchange.{Exchange}
use ciacola.Agent.Run.{TurnEvent, Launch}
use ciacola.Ledger.Rows.{Turn, Ledger, is_running, is_queued}
use ciacola.Ledger.Turns.{claim_turn, abort_claimed_turn}
use ciacola.Ledger.Operations.{Op, apply}
use ciacola.Recovery.Recover.{turns_in_state, keys_of}
use ciacola.Executor.Load.{Setup, DispatchError, registry_poisoned, get_turn, prepare}
use ciacola.Executor.Deliver.{record_event, settle}
use ciacola.Executor.Family.{update}

abbrev pub Key : Type 0
Key = String × ℕ

unfoldable pub same_key : Key → Key → Bool
same_key a b = a.0 == b.0 && eqb a.1 b.1

-- where a delivery stands
pub data Phase : Type 0 where
  waiting permitted reserved claiming claimed registered checked polling launched finished : Phase

-- `cancelled` is the task's own token
pub record Task : Type 0 where
  pub host : ℕ
  pub key : Key
  pub phase : Phase
  pub cancelled : Bool

-- `HandExecutor`, or `PollingExecutor` where `polls`; `queue` is the channel of the one, and what is left
-- of the batch that the other has read; `kills` names the task whose token is registered
pub record Host : Type 0 where
  pub polls : Bool
  pub ready : Bool
  pub dispatching : Bool
  pub stopping : Bool
  pub permits : ℕ
  pub inflight : ℕ
  pub queue : List Key
  pub kills : Key → Option ℕ

-- `log` has each launch of a provider, the last one first
pub record System : Type 0 where
  pub ledger : Ledger
  pub hosts : ℕ → Host
  pub tasks : ℕ → Task
  pub next : ℕ
  pub log : List (ℕ × Key)

unfoldable pub bind : Key → Option ℕ → (Key → Option ℕ) → Key → Option ℕ
unfolding same_key
bind k v kills j = if same_key k j then v else kills j

-- the permit and the guard of a task that ends are given back
abbrev pub leave : Host → Host
leave h = record h { permits = h.permits + 1; inflight = h.inflight - 1 }

-- the drop of the `KillRegistration`, and then of both
abbrev pub unregister : Key → Host → Host
unregister k h = record h {
  permits = h.permits + 1;
  inflight = h.inflight - 1;
  kills = bind k none h.kills;
}

abbrev pub at : Phase → Task → Task
at p t = record t { phase = p }

abbrev pub is_active : Option Turn → Bool
is_active none = false
is_active (some r) = is_running r.state

-- What a task can do next: the ledger, its executor and the task after it, and whether it has launched
-- the provider.
module _ (setup : Setup) (i : ℕ) (l : Ledger) (h : Host) (t : Task) where
  pub data Move : Ledger → Host → Task → Bool → Type 0 where
    acquire :
        t.phase ≡ waiting
        → 0 < h.permits
        → Move l (record h { permits = h.permits - 1 }) (at permitted t) false
    -- `InflightGuard::after_permit` counts first, and then looks at `stopping`
    enter :
        t.phase ≡ permitted → Move l (record h { inflight = h.inflight + 1 }) (at reserved t) false
    refuse : t.phase ≡ reserved → h.stopping ≡ true → Move l (leave h) (at finished t) false
    pass : t.phase ≡ reserved → h.stopping ≡ false → Move l h (at claiming t) false
    win :
        (now_ms : ℕ)
        → t.phase ≡ claiming
        → (claim_turn l t.key.0 t.key.1 now_ms).1 ≡ true
        → Move (claim_turn l t.key.0 t.key.1 now_ms).0 h (at claimed t) false
    lose :
        (now_ms : ℕ)
        → t.phase ≡ claiming
        → (claim_turn l t.key.0 t.key.1 now_ms).1 ≡ false
        → Move (claim_turn l t.key.0 t.key.1 now_ms).0 (leave h) (at finished t) false
    install :
        t.phase ≡ claimed
        → Move l
            (record h { kills = bind t.key (some i) h.kills })
            (record t { phase = registered; cancelled = false })
            false
    -- the lock of the registry is poisoned
    poisoned :
        (now : ℕ)
        → t.phase ≡ claimed
        → Move
            (abort_claimed_turn l t.key.0 t.key.1 (setup.sentence registry_poisoned) now).0
            (leave h)
            (at finished t)
            false
    check :
        t.phase ≡ registered
        → is_active (get_turn l t.key.0 t.key.1) ≡ true
        → Move l h (at checked t) false
    already_settled :
        t.phase ≡ registered
        → is_active (get_turn l t.key.0 t.key.1) ≡ false
        → Move l (unregister t.key h) (at finished t) false
    -- the biased `select!` looks at the token first, each time that it is polled
    poll : t.phase ≡ checked → t.cancelled ≡ false → Move l h (at polling t) false
    wait : t.phase ≡ polling → Move l h (at checked t) false
    cancel :
        t.phase ≡ checked → t.cancelled ≡ true → Move l (unregister t.key h) (at finished t) false
    launch :
        (next : String) (l' : Ledger) (x : Launch)
        → t.phase ≡ polling
        → prepare setup l t.key.0 t.key.1 next ≡ (l', ok x)
        → Move l' h (at launched t) true
    abort :
        (next : String) (l' : Ledger) (e : DispatchError) (now : ℕ)
        → t.phase ≡ polling
        → prepare setup l t.key.0 t.key.1 next ≡ (l', err e)
        → Move
            (abort_claimed_turn l' t.key.0 t.key.1 (setup.sentence e) now).0
            (unregister t.key h)
            (at finished t)
            false
    report :
        (e : TurnEvent) → t.phase ≡ launched → Move (record_event t.key.0 t.key.1 e l) h t false
    settled :
        (now : ℕ) (r : Result String Exchange)
        → t.phase ≡ launched
        → Move (settle t.key.0 t.key.1 now r l) (unregister t.key h) (at finished t) false
    -- the future is dropped, and with it the provider's process
    kill :
        t.phase ≡ launched → t.cancelled ≡ true → Move l (unregister t.key h) (at finished t) false

-- What the owner of an executor, and its dispatcher, can do without a task.
pub data HostMove (l : Ledger) (h : Host) : Host → Type 0 where
  submit : (k : Key) → h.polls ≡ false → HostMove l h (record h { queue = h.queue ++ k ∷ [] })
  open_gate : HostMove l h (record h { ready = true })
  start : h.ready ≡ true → h.stopping ≡ false → HostMove l h (record h { dispatching = true })
  drain : HostMove l h (record h { stopping = true })
  tick :
      h.polls ≡ true
      → h.dispatching ≡ true
      → h.stopping ≡ false
      → h.queue ≡ []
      → HostMove l h (record h { queue = keys_of (turns_in_state is_queued l) })
  break : h.polls ≡ true → h.stopping ≡ true → HostMove l h (record h { queue = [] })

-- A task that the dispatcher spawns. The poller acquires the permit and reserves before it spawns, one
-- turn after the other; here its turns may wait for a permit together.
pub data Spawn (h : Host) : Key → Host → Phase → Type 0 where
  receive :
      (k : Key) (rest : List Key)
      → h.polls ≡ false
      → h.dispatching ≡ true
      → h.queue ≡ k ∷ rest
      → Spawn h k (record h { queue = rest }) waiting
  dispatch :
      (k : Key) (rest : List Key)
      → h.polls ≡ true
      → h.dispatching ≡ true
      → h.stopping ≡ false
      → h.queue ≡ k ∷ rest
      → Spawn h k (record h { queue = rest }) waiting

abbrev logged : Bool → ℕ × Key → List (ℕ × Key) → List (ℕ × Key)
logged true e log = e ∷ log
logged false e log = log

pub data Step (setup : Setup) (s : System) : System → Type 0 where
  move :
      (i : ℕ) (l' : Ledger) (h' : Host) (t' : Task) (launched : Bool)
      → i < s.next
      → Move setup i s.ledger (s.hosts (s.tasks i).host) (s.tasks i) l' h' t' launched
      → Step setup s (record s {
        ledger = l';
        hosts = update s.hosts (s.tasks i).host h';
        tasks = update s.tasks i t';
        log = logged launched ((s.tasks i).host, (s.tasks i).key) s.log;
      })
  spawn :
      (n : ℕ) (k : Key) (h' : Host) (p : Phase)
      → Spawn (s.hosts n) k h' p
      → Step setup s (record s {
        hosts = update s.hosts n h';
        tasks = update s.tasks s.next (record { host = n; key = k; phase = p; cancelled = false });
        next = s.next + 1;
      })
  host :
      (n : ℕ) (h' : Host)
      → HostMove s.ledger (s.hosts n) h'
      → Step setup s (record s { hosts = update s.hosts n h' })
  -- `TurnExecutor::kill` of an executor that has the token
  signal :
      (n : ℕ) (k : Key) (i : ℕ)
      → (s.hosts n).kills k ≡ some i
      → Step setup s
          (record s { tasks = update s.tasks i (record (s.tasks i) { cancelled = true }) })
  -- any other writer: the tools, another server, and the writer of usage that outlives its turn
  other : (op : Op) → Step setup s (record s { ledger = apply op s.ledger })

pub data Steps (setup : Setup) (s : System) : System → Type 0 where
  here : Steps setup s s
  then_step : {t u : System} → Steps setup s t → Step setup t u → Steps setup s u

-- an executor as it is constructed, and a system with no task
abbrev pub boot : Bool → ℕ → Host
boot polls concurrency = record {
  polls = polls;
  ready = false;
  dispatching = false;
  stopping = false;
  permits = concurrency;
  inflight = 0;
  queue = [];
  kills = λ k. none;
}

abbrev nobody : Task
nobody = record { host = 0; key = ("", 0); phase = finished; cancelled = false }

abbrev pub initial : Ledger → (ℕ → Bool) → (ℕ → ℕ) → System
initial l polls concurrency = record {
  ledger = l;
  hosts = λ n. boot (polls n) (concurrency n);
  tasks = λ i. nobody;
  next = 0;
  log = [];
}
