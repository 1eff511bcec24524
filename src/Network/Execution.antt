-- ===== src/Network/Execution.antt =====
-- What `process_delegation_request` of src/agent_delegation_network.py does after validation.
use agent_delegation_network.Auth.Verification.{instant}
use agent_delegation_network.Crypto.{Crypto}
use agent_delegation_network.Json.{Fields, Json, end, get, null, num, obj, or_else, str, truthy}
use agent_delegation_network.Json.Equality.{as_number}
use agent_delegation_network.Json.Keys.{Key, hash_key, key_insert}
use agent_delegation_network.Network.Agent.{
  Agent, Handler, Node, Returned, delegation_completed, delegation_received, run_handler,
}
use agent_delegation_network.Prelude.{
  Bool, Exception, List, Option, Result, String, [], attribute_error, false, if◌then◌else◌,
  invalid_signature, leb, min, none, ok, os_error, permission_error, raised, runtime_error, some,
  true, type_error, value_error, ℕ, ◌++◌, ◌==◌, ◌>>=◌, ◌∷◌,
}
use agent_delegation_network.Protocol.Messages.{
  DelegationRequest, DelegationResult, DelegationStatus, expect_dict, post_init_result,
  result_to_action_request, status_value,
}
use agent_delegation_network.ReplayLedger.Entry.{State, retryable_failure}
use agent_delegation_network.ReplayLedger.Execution.{Grant, finalize_request_execution}
use agent_delegation_network.ReplayLedger.Moves.{Op}
use agent_delegation_network.ReplayLedger.Table.{Table}
use agent_delegation_network.ReplayLedger.Traces.{run}

-- What the process reads: its configuration, the gateway that the caller names, the clock at each
-- step, the random texts, and the ledger calls of heartbeats and of other processes while the handler
-- runs.
pub record Environment : Type 0 where
  pub mock : Bool
  pub configured_did : String
  pub runtime_mode : Option (List ℕ)
  pub gateway_public_key_hex : Option String
  pub gateway_key_id : Option String
  pub build_config_id : Option String
  pub require_tee_authorization : Option Bool
  pub integrity_key : Result (Option String)
  pub received_at : ℕ
  pub validated_at : ℕ
  pub begun_at : ℕ
  pub logged_at : ℕ
  pub run_at : ℕ
  pub finished_at : ℕ
  pub closed_at : ℕ
  pub signed_at : ℕ
  pub execution_token : String
  pub nonce : String
  pub meanwhile : List Op

-- The signed reply, the node afterwards, and whether the handler was called.
pub record Outcome : Type 0 where
  pub reply : Fields
  pub node : Node
  pub executed : Bool

abbrev pub message_of : Exception → String
message_of (runtime_error m) = m
message_of (value_error m) = m
message_of (type_error m) = m
message_of (permission_error m) = m
message_of (attribute_error m) = m
message_of (os_error m) = m
message_of (invalid_signature m) = m

-- `DelegationProtocol.create_delegation_result`
unfoldable pub create_delegation_result :
    ℕ → String → DelegationRequest → String → DelegationStatus → Json → Json → DelegationResult
unfolding post_init_result
create_delegation_result now fresh r performer status result error =
    post_init_result now fresh (record {
      delegation_id = r.delegation_id;
      from_agent_id = str performer;
      to_agent_id = r.from_agent_id;
      status = status;
      result = result;
      error = error;
      nonce = null;
      issued_at = null;
      tee_authorization = r.tee_authorization;
    })

-- The answer to a request that raised.
unfoldable pub error_result : ℕ → String → String → Exception → DelegationResult
error_result now fresh performer e = record {
  delegation_id = str "error";
  from_agent_id = str performer;
  to_agent_id = str "unknown";
  status = DelegationStatus.failed;
  result = null;
  error = str (message_of e);
  nonce = str fresh;
  issued_at = num now;
  tee_authorization = null;
}

-- `_delegation_request_replay_expires_at`: the earlier of the request's end and the authorization's.
unfoldable pub receipt_expiry : Crypto → Fields → Option ℕ
receipt_expiry c receipt = elim (get "authorization_expires_at" receipt) [
  | str s ↦
      if s == ""
      then none
      else elim (c.from_iso_format s) [ none ↦ none | some t ↦ some (instant t) ]
  | _ ↦ none
]

abbrev pub earlier : ℕ → Option ℕ → ℕ
earlier t none = t
earlier t (some u) = min t u

unfoldable pub replay_expires_at : Crypto → ℕ → DelegationRequest → Result ℕ
replay_expires_at c now r = elim (as_number r.expires_at) [
  | none ↦ raised (type_error "float() argument must be a number")
  | some t ↦ expect_dict (or_else (obj end) r.tee_authorization) >>= λ receipt.
      ok (earlier (if leb t 0 then now else t) (receipt_expiry c receipt))
]

-- The result of an execution, and what `json.dumps` raises on it if it cannot print it.
abbrev pub Finished : Type 0
Finished = DelegationResult × Option Exception

module _ (c : Crypto) (env : Environment) where
  abbrev pub signed_reply : Agent → DelegationResult → Fields
  signed_reply a result =
      result_to_action_request c env.mock env.configured_did a.signer env.signed_at result

  -- A reply with no execution.
  abbrev pub answer : Node → DelegationResult → Outcome
  answer n result = record { reply = signed_reply n.agent result; node = n; executed = false }

  abbrev pub answer_failed : Node → DelegationRequest → String → Outcome
  answer_failed n r error = answer n (
      create_delegation_result env.finished_at env.nonce r n.agent.signer.agent_id
        DelegationStatus.failed null (str error))

  abbrev pub answer_error : Node → Bool → Exception → Outcome
  answer_error n executed e = record {
    reply = signed_reply n.agent (error_result env.finished_at env.nonce n.agent.signer.agent_id e);
    node = n;
    executed = executed;
  }

  -- The log entry and the table of requests, under the lock.
  abbrev pub record_received : DelegationRequest → Key → Agent → Agent
  record_received r k a = record a {
    delegations = key_insert k r a.delegations;
    delegation_log =
        a.delegation_log
        ++ record {
          timestamp = env.logged_at;
          kind = delegation_received;
          delegation_id = r.delegation_id;
          from_agent = r.from_agent_id;
          to_agent = str a.signer.agent_id;
          action = r.action;
          status = "in_progress";
          has_error = false;
        }
          ∷ [];
  }

  abbrev pub record_completed : DelegationRequest → Key → DelegationResult → Agent → Agent
  record_completed r k result a = record a {
    results = key_insert k result a.results;
    delegation_log =
        a.delegation_log
        ++ record {
          timestamp = env.closed_at;
          kind = delegation_completed;
          delegation_id = r.delegation_id;
          from_agent = r.from_agent_id;
          to_agent = str a.signer.agent_id;
          action = r.action;
          status = status_value result.status;
          has_error = truthy result.error;
        }
          ∷ [];
  }

  abbrev pub result_for :
      DelegationRequest → Agent → DelegationStatus → Json → Json → DelegationResult
  result_for r a = create_delegation_result env.finished_at env.nonce r a.signer.agent_id

  -- The `except` around the execution: the failure is reported to the ledger.
  unfoldable pub report_failure :
      DelegationRequest
      → Agent
      → String
      → Option String
      → Exception
      → Table
      → Result Finished × Table
  report_failure r a key secret e db =
      let (f, db') =
        finalize_request_execution c key retryable_failure secret (some (message_of e))
          (some env.execution_token) env.finished_at db in
      (f >>= λ _. ok (result_for r a DelegationStatus.failed null (str (message_of e)), none), db')

  abbrev pub finish_success :
      DelegationRequest
      → Agent
      → String
      → Option String
      → Returned
      → Result Bool × Table
      → Result Finished × Table
  finish_success r a key secret value (ok closed_row, db) =
      (ok (result_for r a DelegationStatus.completed value.value null, value.refused), db)
  finish_success r a key secret value (raised e, db) = report_failure r a key secret e db

  -- The `try` around the execution, from what the handler returned.
  unfoldable pub finish :
      DelegationRequest
      → Agent
      → String
      → Option String
      → Result Returned
      → Table
      → Result Finished × Table
  finish r a key secret (ok value) db = finish_success r a key secret value (
      finalize_request_execution c key State.completed secret none (some env.execution_token)
        env.finished_at db)
  finish r a key secret (raised e) db = report_failure r a key secret e db

  -- The result is stored and logged; then it is signed, which raises if it cannot be printed.
  abbrev pub conclude : DelegationRequest → Key → Agent → Result Finished × Table → Outcome
  conclude r k a (ok (result, some e), db) =
      answer_error (record { agent = record_completed r k result a; ledger = db }) true e
  conclude r k a (ok (result, none), db) =
      let a' = record_completed r k result a in
      record {
        reply = signed_reply a' result;
        node = record { agent = a'; ledger = db };
        executed = true;
      }
  conclude r k a (raised e, db) = answer_error (record { agent = a; ledger = db }) true e

  -- From the start of the handler to the reply; other calls reach the ledger while it runs.
  unfoldable pub execute :
      DelegationRequest → Handler → String → Option String → Key → Node → Outcome
  unfolding finish
  execute r h key secret k n =
      let a = record_received r k n.agent in
      conclude r k a (
        finish r a key secret (run_handler a env.run_at h r.parameters)
          (run c env.meanwhile n.ledger))

  -- The row of the request is keyed by its delegation id, which may be unhashable.
  abbrev pub start :
      DelegationRequest → Handler → String → Option String → Node → Result Key → Outcome
  start r h key secret n (ok k) = execute r h key secret k n
  start r h key secret n (raised e) = answer_error n false e

  -- From the answer of the ledger.
  abbrev pub granted :
      DelegationRequest → Handler → String → Option String → Agent → Result Grant × Table → Outcome
  granted r h key secret a (raised e, db) = answer_error (record { agent = a; ledger = db }) false e
  granted r h key secret a (ok (allowed, reason, token), db) =
      let n : Node = record { agent = a; ledger = db } in
      if allowed
      then start r h key secret n (hash_key r.delegation_id)
      else answer_failed n r reason
