-- ===== src/Ledger/Trace.antt =====
-- Every operation of the ledger as one write to the table of turns.
use ciacola.Base.{
  ℕ, ◌+◌, String, ◌≡◌, refl, Bool, true, ◌&&◌, Option, none, some, List, [], ◌∷◌, ◌++◌, arith,
  Bool-cases, unwrap_or, ok, err, ltb, saturated_i64, is_some, ◌||◌, inl, inr,
}
use ciacola.Base.Table.{update_where, one_row, exists_where}
use ciacola.Agent.Exchange.{Exchange, exchange_cost}
use ciacola.Agent.Definition.{AgentDef}
use ciacola.Limits.Protection.{AdmissionOverride, TurnProtectionSnapshot}
use ciacola.Contract.Outcome.{TokenUsage}
use ciacola.Ledger.Rows.{Turn, Agent, Ledger, TurnState, is_in_flight, is_running}
use ciacola.Ledger.Transitions.{
  Ending, InterruptionTiming, live, recovery, completed, failed_exchange, old_terminal_provenance,
}
use ciacola.Ledger.Turns.{
  is_turn, is_agent, last_seq, may_insert, new_turn, guarded_insert, update_turns, claim_turn,
  settle_interruption, interrupt_turn, recover_turn, abort_claimed_turn, roll_up_settled_turn,
  complete_turn, fail_exchange, record_usage_snapshot,
}
use ciacola.Ledger.Prune.{prune_cutoff, prune_turns}
use ciacola.Ledger.Agents.{
  ProviderMove, normalized_def, moves_provider, bears_token, insert_agent, update_agent_def,
  retire_agent, assign_session, record_provider_session,
}
use ciacola.Ledger.Operations.{
  Op, create, update_def, assign, retire, enqueue, claim, learn_session, snapshot, complete, fail,
  interrupt, recover, abort, prune, apply, accepted, RowOk,
}
use ciacola.Ledger.Writes.{
  Advances, Advances-claimed, Advances-observed, Advances-session, Advances-provenance,
  Advances-blanked, Settles-interrupted, Settles-aborted, Settles-completed,
  Settles-failed_exchange,
}

-- An update that moves each row that it selects forward.
pub data Update (cutoff : ℕ) (l : Ledger) : List Turn → Type 0 where
  row_update :
      (p : Turn → Bool) (f : Turn → Turn)
      → ((t : Turn) → p t ≡ true → Advances cutoff t (f t))
      → Update cutoff l (update_where p f l.turns)

-- The turns before a write and after it.
pub data Write (cutoff : ℕ) (l : Ledger) : List Turn → Type 0 where
  nothing : Write cutoff l l.turns
  one_more :
      (t : Turn)
      → may_insert l t.agent_id ≡ true
      → t.seq ≡ last_seq t.agent_id l.turns + 1
      → t.state ≡ TurnState.queued
      → RowOk t
      → Write cutoff l (l.turns ++ t ∷ [])
  updated : (ts : List Turn) → Update cutoff l ts → Write cutoff l ts

module _ {cutoff : ℕ} (l : Ledger) (agent_id : String) (seq : ℕ) where
  pub Update-claim : (now : ℕ) → Update cutoff l (claim_turn l agent_id seq now).0.turns
  unfolding claim_turn update_turns
  Update-claim now = row_update _ _ (λ t h. Advances-claimed now t (ground arith))

  pub Update-settle :
      (ending : Ending) (error : String) (timing : InterruptionTiming) (now_ms : ℕ)
      → Update cutoff l (settle_interruption l agent_id seq ending error timing now_ms).0.turns
  unfolding settle_interruption update_turns
  Update-settle ending error timing now_ms = row_update _ _ (λ t h.
      Advances-provenance t _
        (Settles-interrupted t (ground arith) _ _ ending error timing now_ms _))

  pub Update-abort :
      (error : String) (now : ℕ)
      → Update cutoff l (abort_claimed_turn l agent_id seq error now).0.turns
  unfolding abort_claimed_turn update_turns
  Update-abort error now =
      row_update _ _ (λ t h. Advances-provenance t _ (Settles-aborted t (ground arith) error now))

  pub Advances-complete :
      (x : Exchange) (now : ℕ) (t : Turn)
      → is_turn agent_id seq t && is_running t.state ≡ true
      → Advances cutoff t (old_terminal_provenance (completed x now t))
  Advances-complete x now t h = Advances-provenance t _ (Settles-completed t (ground arith) x now)

  pub Update-complete :
      (x : Exchange) (now : ℕ) → Update cutoff l (complete_turn l agent_id seq x now).0.turns
  unfolding complete_turn update_turns roll_up_settled_turn
  Update-complete x now =
      elim (Bool-cases
        (one_row (λ (t : Turn). is_turn agent_id seq t && is_running t.state) l.turns)) [
          | inl e ↦ rw e (row_update _ _ (Advances-complete x now))
          | inr e ↦ rw e (row_update _ _ (Advances-complete x now))
        ]

  pub Update-snapshot :
      (usage : TokenUsage) → Update cutoff l (record_usage_snapshot l agent_id seq usage).0.turns
  unfolding record_usage_snapshot
  Update-snapshot usage = row_update _ _ (λ t h. Advances-observed usage t)

  pub Update-session :
      (session : String) → Update cutoff l (record_provider_session l agent_id seq session).turns
  unfolding record_provider_session
  Update-session session = row_update _ _ (λ t h. Advances-session (some session) t)

  pub Advances-fail :
      (ending : Ending) (error : String) (x : Exchange) (now : ℕ) (t : Turn)
      → is_turn agent_id seq t && is_in_flight t.state ≡ true
      → Advances cutoff t (old_terminal_provenance (failed_exchange ending error x now t))
  Advances-fail ending error x now t h =
      Advances-provenance t _ (Settles-failed_exchange t (ground arith) ending error x now)

  pub Update-fail :
      (ending : Ending) (error : String) (x : Exchange) (now : ℕ)
      → Update cutoff l (fail_exchange l agent_id seq ending error x now).0.turns
  unfolding fail_exchange update_turns roll_up_settled_turn
  Update-fail ending error x now =
      elim (Bool-cases (
        one_row (λ (t : Turn). is_turn agent_id seq t && is_in_flight t.state) l.turns
        && (ltb 0 (saturated_i64 (exchange_cost x)) || is_some x.session))) [
          | inl e ↦ rw e (row_update _ _ (Advances-fail ending error x now))
          | inr e ↦ rw e (row_update _ _ (Advances-fail ending error x now))
        ]

pub Update-prune : (l : Ledger) (cutoff : ℕ) → Update cutoff l (prune_turns l cutoff).0.turns
unfolding prune_turns
Update-prune l cutoff = row_update _ _ (Advances-blanked cutoff)

new_turn-RowOk :
    (agent_id : String) (seq : ℕ) (prompt : String) (at : ℕ) (provider : String)
    (admission_override : Option AdmissionOverride) (state : String)
    (protection : TurnProtectionSnapshot)
    → RowOk (new_turn agent_id seq prompt at provider admission_override state protection)
unfolding new_turn
new_turn-RowOk agent_id seq prompt at provider admission_override state protection = record {
  pending = λ _. (refl, refl);
  final = λ h. cc;
  cost_known = λ h. cc;
  usage_known = λ h. cc;
  unclaimed = λ _. (refl, refl);
  claimed = λ h. cc;
}

module _ {cutoff : ℕ} (l : Ledger) (agent_id : String) where
  Write-enqueue :
      (prompt : String) (at : ℕ) (provider : String) (admission_override : Option AdmissionOverride)
      (state : String) (protection : TurnProtectionSnapshot)
      → Write cutoff l
          (guarded_insert l agent_id prompt at provider admission_override state protection).0.turns
  unfolding guarded_insert new_turn
  Write-enqueue prompt at provider admission_override state protection =
      elim (Bool-cases (may_insert l agent_id)) [
        | inl e ↦ rw e (
            one_more _ e refl refl (
              new_turn-RowOk agent_id (last_seq agent_id l.turns + 1) prompt at provider
                admission_override state protection))
        | inr e ↦ rw e nothing
      ]

  Write-create :
      (def : AgentDef) (spawned_by : Option String) (session token : String)
      → Write cutoff l (unwrap_or (insert_agent l def spawned_by agent_id session token) l).turns
  unfolding insert_agent
  Write-create def spawned_by session token =
      elim (Bool-cases
        (exists_where (is_agent agent_id) l.agents || exists_where (bears_token token) l.agents)) [
          | inl e ↦ rw e nothing
          | inr e ↦ rw e nothing
        ]

  Write-accepted :
      (refusal : Option ProviderMove) (agents : List Agent)
      → Write cutoff l
          (accepted l
            (elim refusal [ some r ↦ err r | none ↦ ok (record l { agents = agents }) ])).turns
  Write-accepted none agents = nothing
  Write-accepted (some r) agents = nothing

  Write-update_def :
      (def : AgentDef) → Write cutoff l (accepted l (update_agent_def l agent_id def)).turns
  unfolding update_agent_def
  Write-update_def def = Write-accepted (moves_provider l agent_id (normalized_def l def)) _

-- before when a turn has to be written for the operation to blank it: only a pruning blanks
unfoldable pub pruned_before : Op → ℕ
pruned_before (prune now older_than_days) = prune_cutoff now older_than_days
pruned_before _ = 0

-- Whatever the operation, the turns after it are those before it with one write made.
pub apply-Write : (op : Op) (l : Ledger) → Write (pruned_before op) l (apply op l).turns
unfolding pruned_before apply assign_session retire_agent interrupt_turn recover_turn
apply-Write (create def spawned_by agent_id session token) l =
    Write-create l agent_id def spawned_by session token
apply-Write (update_def agent_id def) l = Write-update_def l agent_id def
apply-Write (assign agent_id session) l = nothing
apply-Write (retire agent_id) l = nothing
apply-Write (enqueue agent_id prompt at provider admission_override state protection) l =
    Write-enqueue l agent_id prompt at provider admission_override state protection
apply-Write (claim agent_id seq now_ms) l = updated _ (Update-claim l agent_id seq now_ms)
apply-Write (learn_session agent_id seq session) l =
    updated _ (Update-session l agent_id seq session)
apply-Write (snapshot agent_id seq usage) l = updated _ (Update-snapshot l agent_id seq usage)
apply-Write (complete agent_id seq x now) l = updated _ (Update-complete l agent_id seq x now)
apply-Write (fail agent_id seq ending error x now) l =
    updated _ (Update-fail l agent_id seq ending error x now)
apply-Write (interrupt agent_id seq ending error now_ms) l =
    updated _ (Update-settle l agent_id seq ending error live now_ms)
apply-Write (recover agent_id seq error now_ms) l =
    updated _ (Update-settle l agent_id seq Ending.failed error recovery now_ms)
apply-Write (abort agent_id seq error now) l = updated _ (Update-abort l agent_id seq error now)
apply-Write (prune now older_than_days) l =
    updated _ (Update-prune l (prune_cutoff now older_than_days))
