-- ===== src/Ledger/Tests.antt =====
-- The ledger at work: an agent whose first turn has been completed and whose second one runs.
use ciacola.Base.{
  String, Option, map, saturated_i64, ℕ, ◌≡◌, refl, ◌≢◌, true, false, none, some, List, [], ◌∷◌,
  ◌<◌, ◌≤◌, arith,
}
use ciacola.Base.Table.{find_where, update_where, exists_where, count_where}
use ciacola.Ledger.Rows.{
  Turn, Agent, Ledger, TurnState, CostState, UsageState, ElapsedState, FailureColumn, is_in_flight,
}
use ciacola.Ledger.Transitions.{
  Ending, ending_state, claimed, completed, old_terminal_provenance, live, recovery,
}
use ciacola.Ledger.Turns.{
  is_turn, is_agent, flies_for, update_turns, get_agent, last_seq, new_turn, may_insert,
  guarded_insert, claim_turn, complete_turn, roll_up_settled_turn, rolled_up, interrupt_turn,
  recover_turn, abort_claimed_turn, fail_exchange,
}
use ciacola.Ledger.Agents.{
  insert_agent, bears_token, normalized_def, turn_count, retire_agent, agent_id_by_token,
  spawn_depth,
}
use ciacola.Ledger.Operations.{
  Op, create, enqueue, claim, complete, update_def, prune, apply, IsValid,
}
use ciacola.Ledger.Prune.{prune_cutoff, prune_turns, is_prunable, blanked}
use ciacola.Ledger.History.{run, turn_at}
use ciacola.Ledger.Validity.Kept.{apply-IsValid, reachable-IsValid, fresh}
use ciacola.Ledger.Once.{settles-once, answers, claim_turn-once}
use ciacola.Ledger.Interruption.{
  interrupt_turn-effect, recover_turn-effect, abort_claimed_turn-effect, KnownZero, CutOff,
}
use ciacola.Ledger.Loyalty.{run-provider}
use ciacola.Ledger.Identity.{retire_agent-token, spawn_depth-Ancestry, Ancestry}
use ciacola.Agent.Definition.{resolve_provider}
use ciacola.Samples.{runtime, registry, definition, exchange, protection}

abbrev pub history : List Op
history =
    create definition none "a" "s-0" "t-a"
    ∷ enqueue "a" "one" 10 "claude" none "unbounded" protection
    ∷ claim "a" 1 11000
    ∷ complete "a" 1 exchange 12
    ∷ enqueue "a" "two" 20 "claude" none "unbounded" protection
    ∷ claim "a" 2 21000
    ∷ []

abbrev pub ledger : Ledger
ledger = run history (fresh runtime none registry)

ledger-IsValid : IsValid ledger
ledger-IsValid = reachable-IsValid runtime none registry history

abbrev first_turn : Turn
first_turn = record {
  agent_id = "a";
  seq = 1;
  prompt = "one";
  state = TurnState.ok;
  reply = some "done";
  error = none;
  cost_micro_usd = 2500;
  cost_state = CostState.reported;
  cost_complete = true;
  elapsed_ms = 1500;
  elapsed_state = ElapsedState.measured;
  claimed_unix_ms = some 11000;
  tokens_in = 100;
  tokens_out = 20;
  tokens_cached = 5;
  usage_state = UsageState.reported;
  usage_complete = true;
  provider_turns = some 3;
  provider = "claude";
  at_unix = 10;
  settled_unix = some 12;
  admission_override = none;
  turn_protection_state = "unbounded";
  turn_protection = some protection;
  failure_kind = FailureColumn.none;
  provider_session = some "s-1";
  turn_protection_claim_version = 1;
}

abbrev second_turn : Turn
second_turn = record {
  agent_id = "a";
  seq = 2;
  prompt = "two";
  state = TurnState.running;
  reply = none;
  error = none;
  cost_micro_usd = 0;
  cost_state = CostState.legacy;
  cost_complete = false;
  elapsed_ms = 0;
  elapsed_state = ElapsedState.legacy;
  claimed_unix_ms = some 21000;
  tokens_in = 0;
  tokens_out = 0;
  tokens_cached = 0;
  usage_state = UsageState.legacy;
  usage_complete = false;
  provider_turns = none;
  provider = "claude";
  at_unix = 20;
  settled_unix = none;
  admission_override = none;
  turn_protection_state = "unbounded";
  turn_protection = some protection;
  failure_kind = FailureColumn.none;
  provider_session = none;
  turn_protection_claim_version = 1;
}

first_turn_found : turn_at "a" 1 ledger.turns ≡ some first_turn
unfolding run apply insert_agent bears_token normalized_def exists_where guarded_insert may_insert
    last_seq new_turn claim_turn update_turns update_where is_turn claimed old_terminal_provenance
    complete_turn completed roll_up_settled_turn rolled_up find_where count_where flies_for is_agent
    saturated_i64
first_turn_found = refl

second_turn_found : turn_at "a" 2 ledger.turns ≡ some second_turn
unfolding run apply insert_agent bears_token normalized_def exists_where guarded_insert may_insert
    last_seq new_turn claim_turn update_turns update_where is_turn claimed old_terminal_provenance
    complete_turn completed roll_up_settled_turn rolled_up find_where count_where flies_for is_agent
    saturated_i64
second_turn_found = refl

abbrev last_op : Op
last_op = complete "a" 2 exchange 22

apply-IsValid_example : IsValid (apply last_op ledger)
apply-IsValid_example = apply-IsValid last_op ledger ledger-IsValid

reachable-IsValid_example : IsValid ledger
reachable-IsValid_example = reachable-IsValid runtime none registry history

-- the prompt and the reply of the first turn are blanked, the second turn keeps its own
pruned_texts :
    map {B = String × Option String}
      (λ (t : Turn). (t.prompt, t.reply))
      (run (last_op ∷ prune 172815 2 ∷ []) ledger).turns
    ≡ ("", some "") ∷ (second_turn.prompt, some "done") ∷ []
unfolding run apply insert_agent bears_token normalized_def exists_where guarded_insert may_insert
    last_seq new_turn claim_turn update_turns update_where is_turn claimed old_terminal_provenance
    complete_turn completed roll_up_settled_turn rolled_up find_where count_where flies_for is_agent
    saturated_i64 prune_cutoff prune_turns is_prunable blanked
pruned_texts = refl

settles-once_example :
    let l = run (last_op ∷ []) ledger in
    ((claim_turn l "a" 1 30).1 ≡ false)
    × ((complete_turn l "a" 1 exchange 30).1 ≡ false)
    × ((abort_claimed_turn l "a" 1 "late" 30).1 ≡ false)
    × ((recover_turn l "a" 1 "late" 30).1 ≡ false)
    × ((fail_exchange l "a" 1 Ending.killed "late" exchange 30).1 ≡ false)
    × ((interrupt_turn l "a" 1 Ending.killed "late" 30).1 ≡ false)
settles-once_example =
    settles-once ledger "a" 1 first_turn (last_op ∷ []) 30 "late" Ending.killed exchange
      ledger-IsValid first_turn_found refl

answers_example :
    ((claim_turn ledger "a" 2 30).1 ≡ false)
    × ((complete_turn ledger "a" 2 exchange 30).1 ≡ true)
    × ((abort_claimed_turn ledger "a" 2 "stop" 30).1 ≡ true)
    × ((recover_turn ledger "a" 2 "stop" 30).1 ≡ true)
    × ((fail_exchange ledger "a" 2 Ending.failed "stop" exchange 30).1 ≡ true)
    × ((interrupt_turn ledger "a" 2 Ending.failed "stop" 30).1 ≡ true)
answers_example =
    answers ledger ledger-IsValid "a" 2 second_turn second_turn_found 30 "stop" Ending.failed
      exchange

claim_turn-once_example : (claim_turn (claim_turn ledger "a" 2 30).0 "a" 2 31).1 ≡ false
claim_turn-once_example = claim_turn-once ledger "a" 2 30 31

interrupt_turn-effect_example :
    (t' : Turn) × (turn_at "a" 2 (interrupt_turn ledger "a" 2 Ending.killed "stop" 25000).0.turns
      ≡ some t')
    × (second_turn.state ≡ TurnState.queued
        → KnownZero t' × (t'.state ≡ ending_state Ending.killed))
    × (second_turn.state ≡ TurnState.running
        → CutOff live 25000 second_turn t' × (t'.state ≡ ending_state Ending.killed))
    × (is_in_flight second_turn.state ≡ false → t' ≡ second_turn)
interrupt_turn-effect_example =
    interrupt_turn-effect ledger "a" 2 second_turn second_turn_found Ending.killed "stop" 25000

recover_turn-effect_example :
    (t' : Turn) × (turn_at "a" 2 (recover_turn ledger "a" 2 "crash" 25000).0.turns ≡ some t')
    × (second_turn.state ≡ TurnState.running
        → CutOff recovery 25000 second_turn t' × (t'.state ≡ TurnState.failed))
    × (second_turn.state ≢ TurnState.running → t' ≡ second_turn)
recover_turn-effect_example =
    recover_turn-effect ledger "a" 2 second_turn second_turn_found "crash" 25000

abort_claimed_turn-effect_example :
    (t' : Turn) × (turn_at "a" 2 (abort_claimed_turn ledger "a" 2 "drift" 25).0.turns ≡ some t')
    × (second_turn.state ≡ TurnState.running → KnownZero t' × (t'.state ≡ TurnState.failed))
    × (second_turn.state ≢ TurnState.running → t' ≡ second_turn)
abort_claimed_turn-effect_example =
    abort_claimed_turn-effect ledger "a" 2 second_turn second_turn_found "drift" 25

abbrev ada : Agent
ada = record {
  agent_id = "a";
  name = "ada";
  def = record definition { hermetic = some "full"; config_home = some "/home/claude" };
  session = some "s-1";
  cost_micro_usd = 2500;
  spawned_by = none;
  retired = false;
  session_started_seq = 1;
  token = some "t-a";
}

ada_found : get_agent ledger "a" ≡ some ada
unfolding run apply insert_agent bears_token normalized_def exists_where guarded_insert may_insert
    last_seq new_turn claim_turn update_turns update_where is_turn claimed old_terminal_provenance
    complete_turn completed roll_up_settled_turn rolled_up find_where count_where flies_for is_agent
    saturated_i64 get_agent resolve_provider
ada_found = refl

turns_of_ada : 0 < turn_count ledger "a"
unfolding run apply insert_agent bears_token normalized_def exists_where guarded_insert may_insert
    last_seq new_turn claim_turn update_turns update_where is_turn claimed old_terminal_provenance
    complete_turn completed roll_up_settled_turn rolled_up find_where count_where flies_for is_agent
    saturated_i64 turn_count
turns_of_ada = omega arith

abbrev moving : List Op
moving = last_op ∷ update_def "a" (record definition { provider = "codex" }) ∷ []

run-provider_example :
    (a : Agent) × (get_agent (run moving ledger) "a" ≡ some a) × (a.def.provider ≡ "claude")
run-provider_example = run-provider moving ledger "a" ada ada_found turns_of_ada

retirement : (retire_agent (apply last_op ledger) "a").1 ≡ true
unfolding run apply insert_agent bears_token normalized_def exists_where guarded_insert may_insert
    last_seq new_turn claim_turn update_turns update_where is_turn claimed old_terminal_provenance
    complete_turn completed roll_up_settled_turn rolled_up find_where count_where flies_for is_agent
    saturated_i64 retire_agent
retirement = refl

retire_agent-token_example :
    agent_id_by_token (retire_agent (apply last_op ledger) "a").0 "t-a" ≢ some "a"
retire_agent-token_example = retire_agent-token (apply last_op ledger) "a" "t-a" retirement

spawn_depth-Ancestry_example :
    (spawn_depth ledger "a" ≤ 64)
    × ((n : ℕ) → Ancestry ledger "a" n → n ≤ 64 → spawn_depth ledger "a" ≡ n)
spawn_depth-Ancestry_example = spawn_depth-Ancestry ledger "a"
