-- ===== src/Ledger/Validity/Roster.antt =====
-- What an operation of the ledger writes to the table of agents.
use ciacola.Base.{
  ℕ, ◌≤◌, ◌<◌, String, ◌≡◌, refl, subst, eq_iff, Bool, true, false, ◌&&◌, ◌||◌, Option, none, some,
  List, [], ◌∷◌, ◌++◌, arith, Bool-cases, inl, inr, All, unwrap_or, ok, err, ltb, is_some,
  saturated_i64,
}
use ciacola.Base.Table.{update_where, count_where, exists_where, one_row, All-weaken}
use ciacola.Agent.Exchange.{Exchange, exchange_cost}
use ciacola.Agent.Definition.{AgentDef}
use ciacola.Limits.Protection.{AdmissionOverride, TurnProtectionSnapshot}
use ciacola.Ledger.Rows.{Turn, Ledger, Agent, is_in_flight, is_running}
use ciacola.Ledger.Transitions.{Ending}
use ciacola.Ledger.Turns.{
  is_turn, is_agent, get_agent, rolled_up, guarded_insert, may_insert, claim_turn,
  settle_interruption, interrupt_turn, recover_turn, update_turns, abort_claimed_turn,
  roll_up_settled_turn, complete_turn, fail_exchange, record_usage_snapshot,
}
use ciacola.Ledger.Prune.{prune_turns}
use ciacola.Ledger.Agents.{
  ProviderMove, turn_count, normalized_def, moves_provider, bears_token, insert_agent,
  update_agent_def, retire_agent, assign_session, record_provider_session,
}
use ciacola.Ledger.Operations.{
  Op, create, update_def, assign, retire, enqueue, claim, learn_session, snapshot, complete, fail,
  interrupt, recover, abort, prune, apply, accepted,
}
use ciacola.Ledger.Validity.Agents.{
  agents_unique-update, owned-update, unique-append, exists-append,
}

pub data Roster (l : Ledger) : List Agent → Type 0 where
  unchanged : Roster l l.agents
  hired :
      (a : Agent)
      → exists_where (is_agent a.agent_id) l.agents ≡ false
      → Roster l (l.agents ++ a ∷ [])
  changed :
      (p : Agent → Bool) (f : Agent → Agent)
      → ((a : Agent) → (f a).agent_id ≡ a.agent_id)
      → ((a : Agent)
          → get_agent l a.agent_id ≡ some a
          → p a ≡ true
          → 0 < turn_count l a.agent_id
          → (f a).def.provider ≡ a.def.provider)
      → Roster l (update_where p f l.agents)

module _ (l : Ledger) (agent_id : String) where
  Roster-create :
      (def : AgentDef) (spawned_by : Option String) (session token : String)
      → Roster l (unwrap_or (insert_agent l def spawned_by agent_id session token) l).agents
  unfolding insert_agent
  Roster-create def spawned_by session token =
      elim (Bool-cases
        (exists_where (is_agent agent_id) l.agents || exists_where (bears_token token) l.agents)) [
          | inl e ↦ rw e unchanged
          | inr e ↦ rw e (hired _ (ground arith))
        ]

  Roster-accepted :
      (refusal : Option ProviderMove) (agents : List Agent)
      → (refusal ≡ none → Roster l agents)
      → Roster l
          (accepted l
            (elim refusal [ some r ↦ err r | none ↦ ok (record l { agents = agents }) ])).agents
  Roster-accepted none agents r = r refl
  Roster-accepted (some m) agents r = unchanged

  -- A definition that is not refused moves no agent that has had a turn.
  keeps_provider :
      (d : AgentDef) (a : Agent)
      → moves_provider l agent_id d ≡ none
      → get_agent l agent_id ≡ some a
      → 0 < turn_count l agent_id
      → d.provider ≡ a.def.provider
  unfolding moves_provider
  keeps_provider d a m e n = ground (arith, e, eq_iff a.def.provider d.provider)

  Roster-update_def :
      (def : AgentDef) → Roster l (accepted l (update_agent_def l agent_id def)).agents
  unfolding update_agent_def is_agent
  Roster-update_def def = Roster-accepted (moves_provider l agent_id (normalized_def l def)) _ (λ m.
      changed _ _ (λ a. refl)
        (λ a g e n.
          let same : a.agent_id ≡ agent_id = ground (arith, eq_iff a.agent_id agent_id) in
          keeps_provider (normalized_def l def) a m (subst (λ id. get_agent l id ≡ some a) same g)
            (subst (λ id. 0 < turn_count l id) same n)))

  Roster-enqueue :
      (prompt : String) (at : ℕ) (provider : String) (admission_override : Option AdmissionOverride)
      (state : String) (protection : TurnProtectionSnapshot)
      → Roster l
          (guarded_insert l agent_id prompt at provider admission_override state
            protection).0.agents
  unfolding guarded_insert
  Roster-enqueue prompt at provider admission_override state protection =
      elim (Bool-cases (may_insert l agent_id)) [ inl e ↦ rw e unchanged | inr e ↦ rw e unchanged ]

  Roster-complete :
      (seq : ℕ) (x : Exchange) (now : ℕ) → Roster l (complete_turn l agent_id seq x now).0.agents
  unfolding complete_turn update_turns roll_up_settled_turn rolled_up
  Roster-complete seq x now =
      elim (Bool-cases
        (one_row (λ (t : Turn). is_turn agent_id seq t && is_running t.state) l.turns)) [
          | inl e ↦ rw e (changed _ _ (λ a. refl) (λ a _ _ _. refl))
          | inr e ↦ rw e unchanged
        ]

  Roster-fail :
      (seq : ℕ) (ending : Ending) (error : String) (x : Exchange) (now : ℕ)
      → Roster l (fail_exchange l agent_id seq ending error x now).0.agents
  unfolding fail_exchange update_turns roll_up_settled_turn rolled_up
  Roster-fail seq ending error x now =
      elim (Bool-cases (
        one_row (λ (t : Turn). is_turn agent_id seq t && is_in_flight t.state) l.turns
        && (ltb 0 (saturated_i64 (exchange_cost x)) || is_some x.session))) [
          | inl e ↦ rw e (changed _ _ (λ a. refl) (λ a _ _ _. refl))
          | inr e ↦ rw e unchanged
        ]

pub apply-Roster : (op : Op) (l : Ledger) → Roster l (apply op l).agents
unfolding apply assign_session retire_agent interrupt_turn recover_turn settle_interruption
    update_turns claim_turn abort_claimed_turn record_usage_snapshot record_provider_session
    prune_turns
apply-Roster (create def spawned_by agent_id session token) l =
    Roster-create l agent_id def spawned_by session token
apply-Roster (update_def agent_id def) l = Roster-update_def l agent_id def
apply-Roster (assign agent_id session) l = changed _ _ (λ a. refl) (λ a _ _ _. refl)
apply-Roster (retire agent_id) l = changed _ _ (λ a. refl) (λ a _ _ _. refl)
apply-Roster (enqueue agent_id prompt at provider admission_override state protection) l =
    Roster-enqueue l agent_id prompt at provider admission_override state protection
apply-Roster (claim agent_id seq now_ms) l = unchanged
apply-Roster (learn_session agent_id seq session) l = changed _ _ (λ a. refl) (λ a _ _ _. refl)
apply-Roster (snapshot agent_id seq usage) l = unchanged
apply-Roster (complete agent_id seq x now) l = Roster-complete l agent_id seq x now
apply-Roster (fail agent_id seq ending error x now) l =
    Roster-fail l agent_id seq ending error x now
apply-Roster (interrupt agent_id seq ending error now_ms) l = unchanged
apply-Roster (recover agent_id seq error now_ms) l = unchanged
apply-Roster (abort agent_id seq error now) l = unchanged
apply-Roster (prune now older_than_days) l = unchanged

pub unique-Roster :
    (l : Ledger) (agents' : List Agent)
    → Roster l agents'
    → (agent_id : String) → count_where (is_agent agent_id) l.agents ≤ 1
    → count_where (is_agent agent_id) agents' ≤ 1
unique-Roster l agents' unchanged agent_id h = h
unique-Roster l agents' (hired a e) agent_id h = unique-append agent_id l.agents a e h
unique-Roster l agents' (changed p f s _) agent_id h =
    rw (agents_unique-update p f s agent_id l.agents) h

pub owned-Roster :
    (l : Ledger) (agents' : List Agent) (ts : List Turn)
    → Roster l agents'
    → All (λ (t : Turn). exists_where (is_agent t.agent_id) l.agents ≡ true) ts
    → All (λ (t : Turn). exists_where (is_agent t.agent_id) agents' ≡ true) ts
owned-Roster l agents' ts unchanged h = h
owned-Roster l agents' ts (hired a e) h =
    All-weaken _ _ (λ (t : Turn) k. exists-append t.agent_id l.agents a k) ts h
owned-Roster l agents' ts (changed p f s _) h = owned-update p f s l.agents ts h
