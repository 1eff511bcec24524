-- ===== src/Tests/Messages.antt =====
-- Signed delegation requests and results, and their processing.
use agent_delegation_network.Auth.Hashing.{digest, key_fingerprint, take_chars}
use agent_delegation_network.Auth.Signing.{sign_action_request}
use agent_delegation_network.Auth.Verification.{parse_time, signature_ok, verify_action_request}
use agent_delegation_network.Json.{
  Fields, Json, bool, end, field, get, get_or, has, is_str, null, num, obj, str, truthy,
}
use agent_delegation_network.Json.Equality.{py_eq}
use agent_delegation_network.Json.Keys.{hash_key}
use agent_delegation_network.Network.Agent.{find_handler, run_handler}
use agent_delegation_network.Network.Authorization.{
  IsAuthorized, admit-IsAccepted, executed-IsAuthorized,
}
use agent_delegation_network.Network.Delegation.{Task, delegate_task}
use agent_delegation_network.Network.Execution.{execute, replay_expires_at}
use agent_delegation_network.Network.Processing.{
  admit, authorization, claim_arguments, evaluate_wire, key_or_empty, process_delegation_request,
  receiver_of,
}
use agent_delegation_network.Network.Registers.{IsDecided, delegate_task_by_policy}
use agent_delegation_network.Network.Replies.{IsAnswered, process_delegation_request-IsAnswered}
use agent_delegation_network.Policy.Decisions.{
  can_delegate, can_perform_task, evaluate_delegation_request,
}
use agent_delegation_network.Policy.Rules.{members}
use agent_delegation_network.Prelude.{
  Exception, Option, String, arith, eq_iff, false, ok, raised, refl, some, true, ◌≡◌, ◌≢◌, ◌⊎◌,
}
use agent_delegation_network.Prelude.Dict.{lookup}
use agent_delegation_network.Protocol.Acceptance.{
  IsPlain, signed_request_accepted, unbound, unbound_request_accepted, valid_message,
}
use agent_delegation_network.Protocol.Guarantees.{IsAccepted, validate_delegation_request_sound}
use agent_delegation_network.Protocol.Messages.{
  DelegationResult, DelegationStatus, expect_dict, is_expired, request_from_action_request,
  request_payload, request_to_action_request, result_from_action_request, result_to_action_request,
}
use agent_delegation_network.Protocol.RoundTrip.{IsFilled, request_round_trip, result_round_trip}
use agent_delegation_network.Protocol.Validation.{
  data_untampered, replay_key_of, request_hash_of, validate_data, validate_delegation_request,
  validate_receipt, validate_replay_key, validate_request,
}
use agent_delegation_network.ReplayLedger.Entry.{compute_integrity_mac, seconds, verify_integrity}
use agent_delegation_network.ReplayLedger.Execution.{
  begin_request_execution, finalize_request_execution, write_record,
}
use agent_delegation_network.ReplayLedger.Table.{delete_expired, select, upsert}
use agent_delegation_network.ReplayLedger.Traces.{run}
use agent_delegation_network.RuntimeSecurity.Context.{
  WorkerAuthorizationContext, from_trusted_config, gateway_context_configured,
}
use agent_delegation_network.RuntimeSecurity.Mode.{is_space, resolve_runtime_mode}
use agent_delegation_network.Tee.Receipt.{receipt_body, receipt_fingerprint}
use agent_delegation_network.Tests.Samples.{
  clock_crypto, clock_crypto-ReadsBack, open_receiver, ping_request, sample_agent, sample_crypto,
  sample_environment, sample_node, sample_signer, sample_signer-IsKeyPair,
}
use agent_delegation_network.Text.Strings.{str_of}

abbrev pub ping_message : Fields
ping_message = request_to_action_request sample_crypto false "" sample_signer 0 ping_request

ping_accepted :
    validate_delegation_request sample_crypto false (seconds 11) open_receiver ping_message
    ≡ ok (true, "Delegation request is valid", some "0123456789abcdef")
unfolding validate_delegation_request verify_action_request request_to_action_request
    sign_action_request validate_data data_untampered request_from_action_request request_payload
    validate_request validate_receipt validate_replay_key replay_key_of request_hash_of is_expired
    receipt_fingerprint receipt_body py_eq truthy get_or has is_str get parse_time digest
    key_fingerprint take_chars signature_ok
ping_accepted = refl

validate_delegation_request_sound_example :
    IsAccepted sample_crypto (seconds 11) open_receiver ping_message (some "0123456789abcdef")
validate_delegation_request_sound_example =
    validate_delegation_request_sound sample_crypto (seconds 11) open_receiver ping_message
      ping_accepted

pub ping_admitted :
    admit sample_crypto sample_environment "0123456789ab" ping_message
    ≡ ok (ping_request, "0123456789abcdef")
unfolding admit from_trusted_config resolve_runtime_mode is_space gateway_context_configured
    receiver_of validate_delegation_request verify_action_request request_to_action_request
    sign_action_request validate_data data_untampered request_from_action_request request_payload
    validate_request validate_receipt validate_replay_key replay_key_of request_hash_of is_expired
    receipt_fingerprint receipt_body py_eq truthy get_or has is_str get parse_time digest
    key_fingerprint take_chars signature_ok
ping_admitted = refl

admit-IsAccepted_example :
    (context : WorkerAuthorizationContext) × (authorization sample_crypto sample_environment
      ≡ ok context)
    × ((derived : Option String) × ("0123456789abcdef" ≡ key_or_empty derived)
        × IsAccepted sample_crypto
            (seconds 11)
            (receiver_of "0123456789ab" context)
            ping_message
            derived)
admit-IsAccepted_example =
    admit-IsAccepted sample_crypto sample_environment "0123456789ab" ping_message ping_request
      "0123456789abcdef" refl ping_admitted

ping_executed :
    (process_delegation_request sample_crypto sample_environment ping_message sample_node).executed
    ≡ true
unfolding process_delegation_request admit from_trusted_config resolve_runtime_mode is_space
    gateway_context_configured receiver_of validate_delegation_request verify_action_request
    request_to_action_request sign_action_request validate_data data_untampered
    request_from_action_request request_payload validate_request validate_receipt
    validate_replay_key replay_key_of request_hash_of is_expired receipt_fingerprint receipt_body
    py_eq truthy get_or has is_str get parse_time digest key_fingerprint take_chars signature_ok
    evaluate_wire evaluate_delegation_request can_delegate can_perform_task members lookup
    find_handler claim_arguments replay_expires_at begin_request_execution select delete_expired
    upsert write_record compute_integrity_mac hash_key execute run_handler
    finalize_request_execution run verify_integrity
ping_executed = refl

executed-IsAuthorized_example :
    IsAuthorized sample_crypto sample_environment ping_message sample_node
executed-IsAuthorized_example =
    executed-IsAuthorized sample_crypto sample_environment ping_message sample_node ping_executed

process_delegation_request-IsAnswered_example :
    IsAnswered sample_crypto sample_environment sample_node
      (process_delegation_request sample_crypto sample_environment ping_message sample_node)
process_delegation_request-IsAnswered_example =
    process_delegation_request-IsAnswered sample_crypto sample_environment ping_message sample_node

digest_set : (v : Json) → digest clock_crypto v ≢ ""
unfolding digest
digest_set v = ground (arith, eq_iff "0123456789abcdef" "")

pub ping-IsFilled : IsFilled ping_request
ping-IsFilled = record { issued = refl; expiring = refl; capable = refl }

ping-IsPlain : IsPlain open_receiver (seconds 100) ping_request
ping-IsPlain = record {
  filled = ping-IsFilled;
  expires = seconds 3601;
  expiry = refl;
  unexpired = omega arith;
  addressed = refl;
  no_receipt = refl;
  waived = refl;
}

signed_request_accepted_example :
    validate_delegation_request clock_crypto false
      (seconds 100)
      open_receiver
      (request_to_action_request clock_crypto false "" sample_signer (seconds 10) ping_request)
    ≡ ok (
      true,
      valid_message,
      some (
          replay_key_of clock_crypto
            (request_to_action_request clock_crypto false "" sample_signer
              (seconds 10)
              ping_request)
            ping_request
            end),
    )
signed_request_accepted_example =
    signed_request_accepted clock_crypto digest_set sample_signer clock_crypto-ReadsBack
      sample_signer-IsKeyPair open_receiver (seconds 10) (seconds 100) ping_request (omega arith)
      ping-IsPlain

unbound_request_accepted_example :
    validate_delegation_request clock_crypto false (seconds 100) open_receiver (
      unbound clock_crypto digest_set sample_signer clock_crypto-ReadsBack sample_signer-IsKeyPair
        (seconds 10)
        (str "n")
        ping_request)
    ≡ ok (
      true,
      valid_message,
      some (
          replay_key_of clock_crypto
            (unbound clock_crypto digest_set sample_signer clock_crypto-ReadsBack
              sample_signer-IsKeyPair
              (seconds 10)
              (str "n")
              ping_request)
            ping_request
            end),
    )
unbound_request_accepted_example =
    unbound_request_accepted clock_crypto digest_set sample_signer clock_crypto-ReadsBack
      sample_signer-IsKeyPair open_receiver (seconds 10) (seconds 100) (str "n") ping_request
      (omega arith) ping-IsPlain

request_round_trip_example :
    request_from_action_request
      (seconds 100)
      (request_to_action_request sample_crypto false "" sample_signer 0 ping_request)
    ≡ ok ping_request
request_round_trip_example =
    request_round_trip sample_crypto "" sample_signer false 0 (seconds 100) ping_request
      ping-IsFilled

abbrev pong : DelegationResult
pong = record {
  delegation_id = str "d";
  from_agent_id = str "b";
  to_agent_id = str "a";
  status = DelegationStatus.completed;
  result = bool true;
  error = null;
  nonce = str "n";
  issued_at = num (seconds 2);
  tee_authorization = null;
}

result_round_trip_example :
    result_from_action_request
      (seconds 100)
      "fresh"
      (result_to_action_request sample_crypto true "did" sample_signer 0 pong)
    ≡ ok pong
result_round_trip_example =
    result_round_trip sample_crypto "did" sample_signer true 0 (seconds 100) "fresh" pong refl refl

abbrev sample_task : Task
sample_task = record {
  to_agent_id = "0123456789ab";
  action = "PING";
  task_description = "";
  parameters = null;
  deadline = null;
  required_capabilities = null;
  tee_authorization = null;
}

-- The receipt's id is a number, so its decimal print is the id of the request.
abbrev numbered_receipt : Fields
numbered_receipt = field "delegation_id" (num 7) end

abbrev numbered_task : Task
numbered_task = record sample_task { tee_authorization = obj numbered_receipt }

delegate_task_by_policy_example :
    let outcome = delegate_task (λ v. "") (seconds 1) "id" "n" numbered_task sample_agent in
    ((e : Exception) × (truthy numbered_task.tee_authorization ≡ true)
      × (expect_dict numbered_task.tee_authorization ≡ raised e)
      × (outcome ≡ (raised e, sample_agent)))
    ⊎ ((receipt : Fields) × ((truthy numbered_task.tee_authorization ≡ true)
          × (numbered_task.tee_authorization ≡ obj receipt)
          × (truthy (get "delegation_id" receipt) ≡ true)
          × IsDecided
              (seconds 1)
              (str_of (λ v. "") (get "delegation_id" receipt))
              "n"
              numbered_task
              sample_agent
              outcome))
    ⊎ (((truthy numbered_task.tee_authorization ≡ false)
          ⊎ ((receipt : Fields) × (numbered_task.tee_authorization ≡ obj receipt)
              × (truthy (get "delegation_id" receipt) ≡ false)))
        × IsDecided (seconds 1) "id" "n" numbered_task sample_agent outcome)
delegate_task_by_policy_example =
    delegate_task_by_policy (λ v. "") (seconds 1) "id" "n" numbered_task sample_agent
