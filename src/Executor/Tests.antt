-- ===== src/Executor/Tests.antt =====
-- One executor of one permit, and one turn that it is handed.
use ciacola.Base.{
  ℕ, ◌≡◌, refl, true, false, none, some, List, [], ◌∷◌, ok, ◌≤◌, ◌<◌, arith, inr, ◌⊎◌,
}
use ciacola.Contract.Intent.{client_assigned}
use ciacola.Contract.Outcome.{TurnOutcome, Usage, Cost}
use ciacola.Agent.Run.{prepare_exchange, Launch, resume_id, usage_snapshot}
use ciacola.Agent.Intent.{intent_for, expand_home_path}
use ciacola.Ledger.Rows.{
  Turn, Ledger, is_in_flight, TurnState, CostState, UsageState, ElapsedState, FailureColumn,
}
use ciacola.Ledger.Operations.{apply, Op, create, enqueue, interrupt, IsValid}
use ciacola.Ledger.History.{run, turn_at}
use ciacola.Ledger.Validity.Kept.{fresh, reachable-IsValid}
use ciacola.Ledger.Transitions.{interrupted, old_terminal_provenance, Ending, claimed}
use ciacola.Agent.Definition.{resolve_provider}
use ciacola.Limits.Protection.{validate_for_execution}
use ciacola.Contract.Capability.{validate, blocking}
use ciacola.Contract.Registry
use ciacola.Agent.Prompt.{
  compose_system_prompt, capability_block, house_part, system_preamble, tool_line, dir_line,
  turn_lines,
}
use ciacola.Limits.Protection.{as_str, validate_state, validate_unbounded}
use ciacola.Base.OrderedMap.{lookup}
use ciacola.Contract.Intent.{parse_isolation, parse_sandbox}
use ciacola.Base.Text.{
  strip_prefix, is_word, trim, trim_start, trim_end, join, is_whitespace, to_ascii_lowercase,
  to_ascii_lower, codes_eq,
}
use ciacola.Ledger.Agents.{insert_agent, bears_token, normalized_def}
use ciacola.Ledger.Turns.{
  interrupt_turn, settle_interruption, capabilities_of, unavailable_telemetry, roll_up_settled_turn,
  rolled_up, update_turns, get_agent, claim_turn, guarded_insert, is_agent, is_turn, new_turn,
  last_seq,
}
use ciacola.Base.Table.{update_where, count_where, find_where, exists_where}
use native.Mathlib.Decide.{ℕ_discrete}
use ciacola.Executor.Load.{
  Setup, get_turn, prepare, load, read_all, load_ceiling, live_capability, load_mcp, open_session,
  is_rotating,
}
use ciacola.Executor.Deliver.{run_turn}
use ciacola.Executor.Landed.{run_turn-settles}
use ciacola.Executor.System.{
  polling, bind, same_key, is_active, Key, System, Step, move, spawn, host, Steps, here, then_step,
  initial, submit, open_gate, start, drain, signal, other, refuse, cancel, receive, acquire, enter,
  pass, win, install, check, poll, launch,
}
use ciacola.Executor.Family.{tally}
use ciacola.Executor.System.Moves.{holding}
use ciacola.Executor.System.Counts.{inflight_of, on}
use ciacola.Executor.System.Drain.{is_launched, inflight-bounded, launches_by, drained-stays}
use ciacola.Executor.System.Killed.Harm.{launches_on}
use ciacola.Executor.System.Killed.{Signalled, killed-stays}
use ciacola.Executor.System.Taken.{Past, Over, Taken}
use ciacola.Executor.System.Once.{launches-once}
use ciacola.Executor.System.Claims.{launches_of}
use ciacola.Samples.{runtime, registry, definition, protection, usage, able}

abbrev answered : TurnOutcome
answered = record {
  reply = "done";
  resume = some (client_assigned "s-0");
  cost = Cost.reported 2500;
  usage = Usage.reported usage;
  provider_turns = some 3;
  elapsed_ms = 1500;
  failure = none;
}

abbrev setup : Setup
setup = record {
  world = record {
    home = some "/home/ada";
    conduct = λ provider intent. record {
      events = resume_id "s-0" ∷ usage_snapshot usage ∷ [];
      answer = ok answered;
      measured_ms = 1600;
    };
    display = λ e. "the provider failed";
  };
  read_config = λ path. none;
  sentence = λ e. "the turn was refused";
}

abbrev ops : List Op
ops =
    create definition none "a" "s-0" "t-a"
    ∷ enqueue "a" "Summarize the open issues" 10 "claude" none "unbounded" protection
    ∷ []

abbrev ledger : Ledger
ledger = run ops (fresh runtime none registry)

abbrev queued_turn : Turn
queued_turn = record {
  agent_id = "a";
  seq = 1;
  prompt = "Summarize the open issues";
  state = TurnState.queued;
  reply = none;
  error = none;
  cost_micro_usd = 0;
  cost_state = CostState.legacy;
  cost_complete = false;
  elapsed_ms = 0;
  elapsed_state = ElapsedState.legacy;
  claimed_unix_ms = none;
  tokens_in = 0;
  tokens_out = 0;
  tokens_cached = 0;
  usage_state = UsageState.legacy;
  usage_complete = false;
  provider_turns = none;
  provider = "claude";
  at_unix = 10;
  settled_unix = none;
  admission_override = none;
  turn_protection_state = "unbounded";
  turn_protection = some protection;
  failure_kind = FailureColumn.none;
  provider_session = none;
  turn_protection_claim_version = 0;
}

ledger-IsValid : IsValid ledger
ledger-IsValid = reachable-IsValid runtime none registry ops

queued_turn-found : turn_at "a" 1 ledger.turns ≡ some queued_turn
unfolding run apply guarded_insert insert_agent bears_token exists_where find_where is_agent is_turn
    new_turn last_seq
queued_turn-found = refl

run_turn-settles_example :
    let l' = run_turn setup "a" 1 "s-1" 11000 ledger in
    ((ops' : List Op) × (l' ≡ run ops' ledger))
    × IsValid l'
    × ((t' : Turn) × (turn_at "a" 1 l'.turns ≡ some t') × (is_in_flight t'.state ≡ false))
run_turn-settles_example =
    run_turn-settles "a" 1 setup "s-1" 11000 ledger queued_turn ledger-IsValid queued_turn-found
      refl

abbrev launch_intent : Launch
launch_intent = record {
  provider = record { key = "claude"; capabilities = able };
  intent =
      intent_for setup.world.home
        (record definition { hermetic = some "full"; config_home = some "/home/claude" }) none
        (some "s-0") false "Summarize the open issues";
}

abbrev key : Key
key = ("a", 1)

abbrev start_system : System
start_system = initial ledger (λ n. false) (λ n. 1)

abbrev From : System → Type 0
From s = (t : System) × Steps setup s t

abbrev Reached : Type 0
Reached = From start_system

abbrev step : {s : System} (r : From s) {t : System} → Step setup r.0 t → From s
step r {t} st = (t, then_step r.1 st)

abbrev delivered : Reached
unfolding ℕ_discrete
delivered =
    let r1 = step (start_system, here) (host 0 _ (submit key refl)) in
    let r2 = step r1 (host 0 _ open_gate) in
    let r3 = step r2 (host 0 _ (start refl refl)) in
    step r3 (spawn 0 key _ _ (receive key [] refl refl refl))

abbrev allowed : Reached
unfolding ℕ_discrete
allowed =
    let r1 = step delivered (move 0 _ _ _ _ (omega arith) (acquire refl (omega arith))) in
    let r2 = step r1 (move 0 _ _ _ _ (omega arith) (enter refl)) in
    step r2 (move 0 _ _ _ _ (omega arith) (pass refl refl))

abbrev claimed_ledger : Ledger
claimed_ledger = (claim_turn ledger "a" 1 11000).0

won : (claim_turn ledger "a" 1 11000).1 ≡ true
unfolding claim_turn update_turns count_where run apply guarded_insert insert_agent bears_token
    exists_where is_agent is_turn new_turn last_seq
won = refl

running : is_active (get_turn claimed_ledger "a" 1) ≡ true
unfolding get_turn find_where claim_turn update_turns update_where claimed run apply guarded_insert
    insert_agent bears_token exists_where is_agent is_turn new_turn last_seq
running = refl

prepared : prepare setup claimed_ledger "a" 1 "s-1" ≡ (claimed_ledger, ok launch_intent)
unfolding as_str lookup parse_isolation parse_sandbox is_word strip_prefix trim trim_start trim_end
    is_whitespace to_ascii_lowercase to_ascii_lower codes_eq system_preamble tool_line dir_line
    turn_lines join validate_state validate_unbounded compose_system_prompt capability_block
    house_part prepare load read_all get_agent load_ceiling live_capability validate_for_execution
    load_mcp open_session is_rotating prepare_exchange Registry.get intent_for validate blocking
    get_turn find_where claim_turn update_turns update_where claimed normalized_def resolve_provider
    expand_home_path run apply guarded_insert insert_agent bears_token exists_where is_agent is_turn
    new_turn last_seq
prepared = refl

abbrev about_to_run : Reached
unfolding ℕ_discrete
about_to_run =
    let r1 = step allowed (move 0 _ _ _ _ (omega arith) (win 11000 refl won)) in
    let r2 = step r1 (move 0 _ _ _ _ (omega arith) (install refl)) in
    step r2 (move 0 _ _ _ _ (omega arith) (check refl running))

abbrev arrived : Reached
unfolding ℕ_discrete
arrived =
    let r = step about_to_run (move 0 _ _ _ _ (omega arith) (poll refl refl)) in
    step r (move 0 _ _ _ _ (omega arith) (launch "s-1" _ _ refl prepared))

launches-once_example :
    (launches_of key arrived.0.log ≤ 1)
    × (0 < launches_of key arrived.0.log → Taken key arrived.0.ledger)
unfolding ℕ_discrete
launches-once_example =
    launches-once setup ledger (λ n. false) (λ n. 1) arrived.0 key ledger-IsValid arrived.1

inflight-bounded_example :
    ((arrived.0.hosts 0).inflight ≡ tally (on inflight_of 0) arrived.0.tasks arrived.0.next)
    × (tally (on is_launched 0) arrived.0.tasks arrived.0.next ≤ (arrived.0.hosts 0).inflight)
    × ((arrived.0.hosts 0).inflight ≤ 1)
unfolding ℕ_discrete
inflight-bounded_example = inflight-bounded setup ledger (λ n. false) (λ n. 1) arrived.0 0 arrived.1

abbrev stopped : Reached
unfolding ℕ_discrete
stopped = step delivered (host 0 _ drain)

abbrev refused : From stopped.0
unfolding ℕ_discrete
refused =
    let r1 =
      step {s = stopped.0} (stopped.0, here)
        (move 0 _ _ _ _ (omega arith) (acquire refl (omega arith))) in
    let r2 = step r1 (move 0 _ _ _ _ (omega arith) (enter refl)) in
    step r2 (move 0 _ _ _ _ (omega arith) (refuse refl refl))

drained-stays_example :
    (launches_by 0 refused.0.log ≡ launches_by 0 stopped.0.log)
    × ((i : ℕ) → (refused.0.tasks i).host ≡ 0 → holding (refused.0.tasks i).phase ≡ false)
unfolding ℕ_discrete
drained-stays_example =
    drained-stays setup ledger (λ n. false) (λ n. 1) stopped.0 refused.0 0 stopped.1 refl refl
      refused.1

abbrev killed : Reached
unfolding ℕ_discrete bind same_key
killed =
    let r = step about_to_run (other (interrupt "a" 1 Ending.killed "stop" 12000)) in
    step r (signal 0 key 0 refl)

abbrev dropped : From killed.0
unfolding ℕ_discrete bind same_key
dropped = step {s = killed.0} (killed.0, here) (move 0 _ _ _ _ (omega arith) (cancel refl refl))

killed-Over : Over key killed.0.ledger
unfolding ℕ_discrete bind same_key Past find_where apply interrupt_turn settle_interruption
    interrupted old_terminal_provenance capabilities_of unavailable_telemetry Registry.get lookup
    get_agent update_turns update_where claim_turn run guarded_insert exists_where insert_agent
    bears_token is_agent is_turn new_turn last_seq claimed roll_up_settled_turn rolled_up
    count_where
killed-Over = (_, refl, refl)

killed-Signalled : Signalled 0 key killed.0
unfolding ℕ_discrete bind same_key Signalled
killed-Signalled = inr (0, refl, refl)

killed-stays_example :
    (launches_on 0 key dropped.0.log ≡ launches_on 0 key killed.0.log)
    ⊎ ((i : ℕ) × ((killed.0.hosts 0).kills key ≡ some i)
        × ((killed.0.tasks i).phase ≡ polling)
        × (launches_on 0 key dropped.0.log ≤ 1))
unfolding ℕ_discrete bind same_key
killed-stays_example =
    killed-stays setup ledger (λ n. false) (λ n. 1) killed.0 dropped.0 0 key ledger-IsValid killed.1
      killed-Over killed-Signalled dropped.1
