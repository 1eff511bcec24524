-- ===== src/ReplayLedger/Moves.antt =====
-- One call of the ledger, seen from one replay key: the row before, the row after and whether the
-- call granted an execution. The calls of src/replay_ledger.py are the steps of a state machine.
use agent_delegation_network.Crypto.{Crypto}
use agent_delegation_network.Prelude.{
  Bool, Option, Result, String, false, ltb, none, ok, raised, some, true, ℕ, ◌&&◌, ◌-◌, ◌<◌, ◌==◌,
  ◌≡◌, ◌≤◌,
}
use agent_delegation_network.ReplayLedger.Consumption.{
  ResultReplay, consume_result_replay, consumed_entry,
}
use agent_delegation_network.ReplayLedger.Entry.{Entry, State, running_lease}
use agent_delegation_network.ReplayLedger.Execution.{
  Grant, Request, beaten, begin_request_execution, exhausted, finalize_request_execution, finished,
  first_attempt, heartbeat_request_execution, is_running, next_attempt, refusal, token_differs,
}
use agent_delegation_network.ReplayLedger.Table.{Table, alive}

pub data Op : Type 0 where
  begin : Request → ℕ → String → Op
  heartbeat : String → Option String → Option String → ℕ → Op
  finalize : String → State → Option String → Option String → Option String → ℕ → Op
  consume : ResultReplay → ℕ → Op

-- The clock reading of a call.
abbrev pub clock : Op → ℕ
clock (begin r now token) = now
clock (heartbeat key secret token now) = now
clock (finalize key state secret error token now) = now
clock (consume r now) = now

pub data Move (k : String) (op : Op) (o o' : Option Entry) (g : Bool) : Type 0 where
  kept : g ≡ false → o' ≡ o → Move k op o o' g
  lapsed : g ≡ false → o' ≡ alive (clock op) o → Move k op o o' g
  started :
      (r : Request) (token : String) (code : Option String)
      → op ≡ begin r (clock op) token
      → r.replay_key ≡ k
      → g ≡ true
      → alive (clock op) o ≡ none
      → o' ≡ some (record (first_attempt r (clock op) token) { integrity_mac = code })
      → Move k op o o' g
  gave_up :
      (r : Request) (token : String) (e : Entry) (code : Option String)
      → op ≡ begin r (clock op) token
      → r.replay_key ≡ k
      → g ≡ false
      → alive (clock op) o ≡ some e
      → refusal e.state (ltb (clock op - e.updated_at) running_lease) ≡ none
      → e.max_attempts ≤ e.attempt_count
      → o' ≡ some (record (exhausted r (clock op) e) { integrity_mac = code })
      → Move k op o o' g
  retried :
      (r : Request) (token : String) (e : Entry) (code : Option String)
      → op ≡ begin r (clock op) token
      → r.replay_key ≡ k
      → g ≡ true
      → alive (clock op) o ≡ some e
      → refusal e.state (ltb (clock op - e.updated_at) running_lease) ≡ none
      → e.attempt_count < e.max_attempts
      → o' ≡ some (record (next_attempt r (clock op) token e) { integrity_mac = code })
      → Move k op o o' g
  beat :
      (secret token : Option String) (e : Entry) (code : Option String)
      → op ≡ heartbeat k secret token (clock op)
      → g ≡ false
      → o ≡ some e
      → is_running e.state ≡ true
      → token_differs e.execution_token token ≡ false
      → o' ≡ some (record (beaten (clock op) e) { integrity_mac = code })
      → Move k op o o' g
  closed :
      (state : State) (secret error token : Option String) (e : Entry) (code : Option String)
      → op ≡ finalize k state secret error token (clock op)
      → g ≡ false
      → o ≡ some e
      → token_differs e.execution_token token ≡ false
      → o' ≡ some (record (finished (clock op) state error e) { integrity_mac = code })
      → Move k op o o' g
  accepted :
      (r : ResultReplay) (code : Option String)
      → op ≡ consume r (clock op)
      → r.replay_key ≡ k
      → g ≡ false
      → alive (clock op) o ≡ none
      → o' ≡ some (record (consumed_entry r (clock op)) { integrity_mac = code })
      → Move k op o o' g

abbrev pub is_granted : Result Grant → Bool
is_granted (ok (granted, _, _)) = granted
is_granted (raised _) = false

module _ (c : Crypto) where
  -- The table after a call, and whether it granted an execution for the key.
  unfoldable pub apply : Op → Table → Table
  apply (begin r now token) db = (begin_request_execution c r now token db).1
  apply (heartbeat key secret token now) db =
      (heartbeat_request_execution c key secret token now db).1
  apply (finalize key state secret error token now) db =
      (finalize_request_execution c key state secret error token now db).1
  apply (consume r now) db = (consume_result_replay c r now db).1

  unfoldable pub grants : String → Op → Table → Bool
  grants k (begin r now token) db =
      (r.replay_key == k) && is_granted (begin_request_execution c r now token db).0
  grants k _ db = false
