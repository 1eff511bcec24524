-- ===== src/Network/History.antt =====
-- Sequences of messages that an agent processes, among other calls of its ledger
-- (src/agent_delegation_network.py).
use agent_delegation_network.Crypto.{Crypto}
use agent_delegation_network.Json.{Fields}
use agent_delegation_network.Network.Agent.{Handler, Node, find_handler}
use agent_delegation_network.Network.Execution.{Environment, replay_expires_at}
use agent_delegation_network.Network.ExecutionCalls.{
  begin-Calls, claimed_expiry, granted-Calls, unexecuted,
}
use agent_delegation_network.Network.LedgerCalls.{
  Calls, InWindow, append-Calls, no-Calls, these-Calls,
}
use agent_delegation_network.Network.Processing.{
  Admitted, admit, claim, claim_arguments, decide, dispatch, evaluate_wire, ledger_request,
  process_delegation_request, respond,
}
use agent_delegation_network.Policy.Decisions.{Reason}
use agent_delegation_network.Prelude.{
  All, Bool, List, Option, Result, String, [], ap, arith, false, none, ok, raised, refl, some, true,
  ℕ, ◌&&◌, ◌+◌, ◌==◌, ◌∙◌, ◌∷◌, ◌≡◌, ◌≤◌,
}
use agent_delegation_network.Protocol.Messages.{DelegationRequest}
use agent_delegation_network.ReplayLedger.Attempts.{Retains, at_most_two_executions}
use agent_delegation_network.ReplayLedger.Execution.{begin_request_execution}
use agent_delegation_network.ReplayLedger.Moves.{Op, apply}
use agent_delegation_network.ReplayLedger.Table.{IsKeyed, Table, select}
use agent_delegation_network.ReplayLedger.Traces.{run, tally}
use agent_delegation_network.Tee.Receipt.{receipt_fingerprint}

-- Whether processing the message calls a handler for the replay key.
abbrev pub executes_for : String → Bool → Result Admitted → Bool
executes_for k executed (raised e) = false
executes_for k executed (ok (r, key)) = (key == k) && executed

abbrev pub executes : Crypto → String → Environment → Fields → Node → Bool
executes c k env signed_request n =
    executes_for k (process_delegation_request c env signed_request n).executed
      (admit c env n.agent.signer.agent_id signed_request)

-- A message, or a call of the ledger by another process.
pub data Event : Type 0 where
  received : Environment → Fields → Event
  elsewhere : Op → Event

abbrev pub after_event : Crypto → Event → Node → Node
after_event c (received env signed_request) n =
    (process_delegation_request c env signed_request n).node
after_event c (elsewhere op) n = record n { ledger = apply c op n.ledger }

abbrev pub executes_event : Crypto → String → Event → Node → Bool
executes_event c k (received env signed_request) n = executes c k env signed_request n
executes_event c k (elsewhere op) n = false

-- How many messages of a history call a handler for the replay key.
unfoldable pub executions : Crypto → String → List Event → Node → ℕ
executions c k [] n = 0
executions c k (e ∷ es) n = tally (executes_event c k e n) + executions c k es (after_event c e n)

abbrev pub IsTimely : Crypto → String → ℕ → Event → Type 0
IsTimely c k horizon (received env signed_request) = InWindow c k horizon env signed_request
IsTimely c k horizon (elsewhere op) = Retains k horizon op

module _ (c : Crypto) (k : String) (horizon : ℕ) (env : Environment) (signed_request : Fields)
    (n : Node) (w : InWindow c k horizon env signed_request) where
  abbrev own_id : String
  own_id = n.agent.signer.agent_id

  module _ (r : DelegationRequest) (key : String)
      (passed : admit c env own_id signed_request ≡ ok (r, key)) where
    retained_for :
        (expires_at : ℕ)
        → replay_expires_at c env.begun_at r ≡ ok expires_at
        → key ≡ k
        → horizon ≤ expires_at
    retained_for expires_at e same =
        w.retained own_id r expires_at (passed ∙ ap (λ z. ok (r, z)) same) e

    claim-Calls :
        (h : Handler) (m : Result (Fields × ℕ × Option String))
        → claim_arguments c env r ≡ m
        → Calls c k horizon n.ledger
            (claim c env r key h n m).node.ledger
            (tally ((key == k) && (claim c env r key h n m).executed))
    unfolding claim claim_arguments
    claim-Calls h (raised e) p = unexecuted c k horizon (key == k)
    claim-Calls h (ok (receipt, t, secret)) p =
        let q = ledger_request key t own_id r (receipt_fingerprint c receipt) secret in
        let g = begin_request_execution c q env.begun_at env.execution_token n.ledger in
        let read : replay_expires_at c env.begun_at r ≡ ok t =
          claimed_expiry c env r receipt t secret p in
        granted-Calls c k horizon env w.ended w.others r h key secret n.agent n.ledger g (
          begin-Calls c k horizon env w.ended w.others r h key secret q n.ledger w.begun refl
            (retained_for t read))

    dispatch-Calls :
        (m : Result (Option Handler))
        → Calls c k horizon n.ledger
            (dispatch c env r key n m).node.ledger
            (tally ((key == k) && (dispatch c env r key n m).executed))
    unfolding dispatch
    dispatch-Calls (raised e) = unexecuted c k horizon (key == k)
    dispatch-Calls (ok none) = unexecuted c k horizon (key == k)
    dispatch-Calls (ok (some h)) = claim-Calls h (claim_arguments c env r) refl

    decide-Calls :
        (m : Result (Bool × Reason))
        → Calls c k horizon n.ledger
            (decide c env r key n m).node.ledger
            (tally ((key == k) && (decide c env r key n m).executed))
    unfolding decide
    decide-Calls (raised e) = unexecuted c k horizon (key == k)
    decide-Calls (ok (false, reason)) = unexecuted c k horizon (key == k)
    decide-Calls (ok (true, reason)) = dispatch-Calls (find_handler r.action n.agent)

  respond-Calls :
      (m : Result Admitted)
      → admit c env own_id signed_request ≡ m
      → Calls c k horizon n.ledger
          (respond c env n m).node.ledger
          (tally (executes_for k (respond c env n m).executed m))
  unfolding respond
  respond-Calls (raised e) p = no-Calls c k horizon n.ledger
  respond-Calls (ok (r, key)) p =
      decide-Calls r key p (evaluate_wire n.agent.policy r.action r.from_agent_id own_id)

  process_delegation_request-Calls :
      Calls c k horizon n.ledger
        (process_delegation_request c env signed_request n).node.ledger
        (tally (executes c k env signed_request n))
  unfolding process_delegation_request
  process_delegation_request-Calls = respond-Calls (admit c env own_id signed_request) refl

event-Calls :
    (c : Crypto) (k : String) (horizon : ℕ) (e : Event) (n : Node)
    → IsTimely c k horizon e
    → Calls c k horizon n.ledger (after_event c e n).ledger (tally (executes_event c k e n))
unfolding run
event-Calls c k horizon (received env signed_request) n w =
    process_delegation_request-Calls c k horizon env signed_request n w
event-Calls c k horizon (elsewhere op) n w = these-Calls c k horizon (op ∷ []) n.ledger (w, tt)

-- The table that a history leaves.
unfoldable pub final_ledger : Crypto → List Event → Node → Table
final_ledger c [] n = n.ledger
final_ledger c (e ∷ es) n = final_ledger c es (after_event c e n)

history-Calls :
    (c : Crypto) (k : String) (horizon : ℕ) (es : List Event) (n : Node)
    → All (IsTimely c k horizon) es
    → Calls c k horizon n.ledger (final_ledger c es n) (executions c k es n)
unfolding executions final_ledger
history-Calls c k horizon [] n w = no-Calls c k horizon n.ledger
history-Calls c k horizon (e ∷ es) n w =
    append-Calls c k horizon (event-Calls c k horizon e n w.0)
      (history-Calls c k horizon es (after_event c e n) w.1)

-- In any history of messages that an agent processes and of ledger calls of other processes, in the
-- window of a replay key that the ledger does not hold at the start, handlers are called for that key
-- at most twice.
pub handled_at_most_twice :
    (c : Crypto) (k : String) (horizon : ℕ) (es : List Event) (n : Node)
    → IsKeyed n.ledger
    → select k n.ledger ≡ none
    → All (IsTimely c k horizon) es
    → executions c k es n ≤ 2
handled_at_most_twice c k horizon es n keyed absent w =
    let x = history-Calls c k horizon es n w in
    omega
      (arith, x.granted, at_most_two_executions c k horizon x.ops n.ledger keyed absent x.timely)
