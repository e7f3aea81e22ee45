-- ===== src/Ledger/Writes.antt =====
-- What an operation of the ledger writes to the table of turns: nothing, one new row, or one update
-- of rows.
use ciacola.Base.{
  ℕ, ◌≤◌, ◌<◌, ◌⊎◌, inl, inr, String, ◌≡◌, ◌≢◌, refl, true, false, Option, none, arith,
}
use ciacola.Agent.Exchange.{Exchange}
use ciacola.Contract.Outcome.{Cost, Usage, TokenUsage}
use ciacola.Ledger.Rows.{Turn, TurnState, CostState, is_in_flight, is_reported_usage}
use ciacola.Ledger.Transitions.{
  Ending, InterruptionTiming, claimed, interrupted, aborted, completed, failed_exchange, observed,
  old_terminal_provenance,
}
use ciacola.Ledger.Prune.{blanked, blank_reply, is_prunable}
use ciacola.Ledger.Operations.{RowOk}

abbrev pub rank : TurnState → ℕ
rank TurnState.queued = 0
rank TurnState.running = 1
rank TurnState.ok = 2
rank TurnState.failed = 2
rank TurnState.killed = 2

-- What a settled row keeps. Its text may have been blanked, if it is older than the cutoff.
pub record Frozen (cutoff : ℕ) (t t' : Turn) : Type 0 where
  pub state : t'.state ≡ t.state
  pub cost : t'.cost_micro_usd ≡ t.cost_micro_usd
  pub cost_state : t'.cost_state ≡ t.cost_state
  pub error : t'.error ≡ t.error
  pub settled : t'.settled_unix ≡ t.settled_unix
  pub failure : t'.failure_kind ≡ t.failure_kind
  pub written : t'.at_unix ≡ t.at_unix
  pub text :
      ((t'.prompt ≡ t.prompt) × (t'.reply ≡ t.reply))
      ⊎ ((t.at_unix < cutoff) × (t'.prompt ≡ "") × (t'.reply ≡ blank_reply t.reply))

pub record Advances (cutoff : ℕ) (t t' : Turn) : Type 0 where
  pub same_agent : t'.agent_id ≡ t.agent_id
  pub same_seq : t'.seq ≡ t.seq
  pub forward : rank t.state ≤ rank t'.state
  pub asked : is_in_flight t'.state ≡ true → t'.prompt ≡ t.prompt
  pub frozen : is_in_flight t.state ≡ false → Frozen cutoff t t'
  pub sound : RowOk t → RowOk t'

pub Frozen-refl : {cutoff : ℕ} → (t : Turn) → Frozen cutoff t t
Frozen-refl t = record {
  state = refl;
  cost = refl;
  cost_state = refl;
  error = refl;
  settled = refl;
  failure = refl;
  written = refl;
  text = inl (refl, refl);
}

pub Advances-refl : {cutoff : ℕ} → (t : Turn) → Advances cutoff t t
Advances-refl t = record {
  same_agent = refl;
  same_seq = refl;
  forward = omega arith;
  asked = λ h. refl;
  frozen = λ _. Frozen-refl t;
  sound = λ r. r;
}

pub Advances-claimed :
    {cutoff : ℕ}
    → (now : ℕ) (t : Turn) → t.state ≡ TurnState.queued
    → Advances cutoff t (old_terminal_provenance (claimed now t))
unfolding claimed old_terminal_provenance
Advances-claimed now t q = record {
  same_agent = refl;
  same_seq = refl;
  forward = ground arith;
  asked = λ h. refl;
  frozen = λ h. ground arith;
  sound = λ r. record {
    pending = λ _. r.pending (ground arith);
    final = λ h. ground arith;
    cost_known = r.cost_known;
    usage_known = r.usage_known;
    unclaimed = λ h. ground arith;
    claimed = λ _ h. cc;
  };
}

-- What a settlement writes of a row that is in flight.
pub record Settles (t t' : Turn) : Type 0 where
  pub same_agent : t'.agent_id ≡ t.agent_id
  pub same_seq : t'.seq ≡ t.seq
  pub in_flight : is_in_flight t.state ≡ true
  pub landed : is_in_flight t'.state ≡ false
  pub settled : t'.settled_unix ≢ none
  pub cost_known : t'.cost_complete ≡ true → t'.cost_state ≡ CostState.reported
  pub usage_known : t'.usage_complete ≡ true → is_reported_usage t'.usage_state ≡ true

rank_of_landed :
    (s s' : TurnState) → is_in_flight s ≡ true → is_in_flight s' ≡ false → rank s ≤ rank s'
rank_of_landed s s' h k = ground arith

Settles-provenance : (t t' : Turn) → Settles t t' → Settles t (old_terminal_provenance t')
unfolding old_terminal_provenance
Settles-provenance t t' s = ground (arith, s)

Advances-Settles : {cutoff : ℕ} → (t t' : Turn) → Settles t t' → Advances cutoff t t'
Advances-Settles t t' s = record {
  same_agent = s.same_agent;
  same_seq = s.same_seq;
  forward = rank_of_landed t.state t'.state s.in_flight s.landed;
  asked = λ h. ground (arith, s.landed);
  frozen = λ h. ground (arith, s.in_flight);
  sound = λ r. record {
    pending = λ h. ground (arith, s.landed);
    final = λ _. s.settled;
    cost_known = s.cost_known;
    usage_known = s.usage_known;
    unclaimed = λ h. ground (arith, s.landed);
    claimed = λ h. ground (arith, s.landed);
  };
}

module _ (t : Turn) (h : is_in_flight t.state ≡ true) where
  pub Settles-interrupted :
      (cost : Cost) (usage : Usage) (ending : Ending) (error : String) (timing : InterruptionTiming)
      (now_ms now : ℕ)
      → Settles t (interrupted cost usage ending error timing now_ms now t)
  unfolding interrupted
  Settles-interrupted cost usage ending error timing now_ms now = record {
    same_agent = refl;
    same_seq = refl;
    in_flight = h;
    landed = ground arith;
    settled = λ e. cc;
    cost_known = λ e. ground arith;
    usage_known = λ e. ground arith;
  }

  pub Settles-aborted : (error : String) (now : ℕ) → Settles t (aborted error now t)
  unfolding aborted
  Settles-aborted error now = record {
    same_agent = refl;
    same_seq = refl;
    in_flight = h;
    landed = refl;
    settled = λ e. cc;
    cost_known = λ e. refl;
    usage_known = λ e. refl;
  }

  pub Settles-completed : (x : Exchange) (now : ℕ) → Settles t (completed x now t)
  unfolding completed
  Settles-completed x now = record {
    same_agent = refl;
    same_seq = refl;
    in_flight = h;
    landed = refl;
    settled = λ e. cc;
    cost_known = λ e. ground arith;
    usage_known = λ e. ground arith;
  }

  pub Settles-failed_exchange :
      (ending : Ending) (error : String) (x : Exchange) (now : ℕ)
      → Settles t (failed_exchange ending error x now t)
  unfolding failed_exchange
  Settles-failed_exchange ending error x now = record {
    same_agent = refl;
    same_seq = refl;
    in_flight = h;
    landed = ground arith;
    settled = λ e. cc;
    cost_known = λ e. ground arith;
    usage_known = λ e. ground arith;
  }

pub Advances-provenance :
    {cutoff : ℕ} → (t t' : Turn) → Settles t t' → Advances cutoff t (old_terminal_provenance t')
Advances-provenance t t' s =
    Advances-Settles t (old_terminal_provenance t') (Settles-provenance t t' s)

pub Advances-observed :
    {cutoff : ℕ} → (usage : TokenUsage) (t : Turn) → Advances cutoff t (observed usage t)
unfolding observed
Advances-observed usage t = record {
  same_agent = refl;
  same_seq = refl;
  forward = omega arith;
  asked = λ h. refl;
  frozen = λ _. record {
    state = refl;
    cost = refl;
    cost_state = refl;
    error = refl;
    settled = refl;
    failure = refl;
    written = refl;
    text = inl (refl, refl);
  };
  sound = λ r. record {
    pending = r.pending;
    final = r.final;
    cost_known = r.cost_known;
    usage_known = λ _. refl;
    unclaimed = r.unclaimed;
    claimed = r.claimed;
  };
}

pub Advances-session :
    {cutoff : ℕ}
    → (session : Option String) (t : Turn)
    → Advances cutoff t (record t { provider_session = session })
Advances-session session t = record {
  same_agent = refl;
  same_seq = refl;
  forward = omega arith;
  asked = λ h. refl;
  frozen = λ _. record {
    state = refl;
    cost = refl;
    cost_state = refl;
    error = refl;
    settled = refl;
    failure = refl;
    written = refl;
    text = inl (refl, refl);
  };
  sound = λ r. record {
    pending = r.pending;
    final = r.final;
    cost_known = r.cost_known;
    usage_known = r.usage_known;
    unclaimed = r.unclaimed;
    claimed = r.claimed;
  };
}

pub Advances-blanked :
    (cutoff : ℕ) (t : Turn) → is_prunable cutoff t ≡ true → Advances cutoff t (blanked t)
unfolding is_prunable blanked
Advances-blanked cutoff t h = record {
  same_agent = refl;
  same_seq = refl;
  forward = omega arith;
  asked = λ k. ground arith;
  frozen = λ _. record {
    state = refl;
    cost = refl;
    cost_state = refl;
    error = refl;
    settled = refl;
    failure = refl;
    written = refl;
    text = inr (ground arith, refl, refl);
  };
  sound = λ r. record {
    pending = r.pending;
    final = r.final;
    cost_known = r.cost_known;
    usage_known = r.usage_known;
    unclaimed = r.unclaimed;
    claimed = r.claimed;
  };
}
