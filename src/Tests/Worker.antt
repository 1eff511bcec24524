-- ===== src/Tests/Worker.antt =====
-- A worker's result and its verification.
use agent_delegation_network.Auth.Hashing.{digest, key_fingerprint, take_chars}
use agent_delegation_network.Auth.Signing.{sign_action_request}
use agent_delegation_network.Auth.Verification.{parse_time, signature_ok, verify_action_request}
use agent_delegation_network.Json.{Fields, bool, end, get, is_str, null, num, obj, str, truthy}
use agent_delegation_network.Json.Equality.{py_eq}
use agent_delegation_network.Json.Keys.{hash_key}
use agent_delegation_network.Prelude.{[], arith, eq_iff, false, ok, refl, some, true, ◌∷◌, ◌≡◌, ◌≢◌}
use agent_delegation_network.Protocol.Messages.{
  DelegationResult, DelegationStatus, result_payload, result_to_action_request,
}
use agent_delegation_network.ReplayLedger.Consumption.{consume_result_replay}
use agent_delegation_network.ReplayLedger.Entry.{compute_integrity_mac, seconds}
use agent_delegation_network.ReplayLedger.Execution.{write_record}
use agent_delegation_network.ReplayLedger.Moves.{begin}
use agent_delegation_network.ReplayLedger.Table.{delete_expired, select, upsert}
use agent_delegation_network.ReplayLedger.Traces.{run}
use agent_delegation_network.Tee.Checks.{
  check_build, check_credential, check_parameters, check_proof, check_request, check_window,
  verify_tee_authorization_receipt,
}
use agent_delegation_network.Tee.Receipt.{
  build_tee_authorization_receipt, receipt_body, receipt_fingerprint,
  tee_authorization_request_hash,
}
use agent_delegation_network.Tests.Samples.{
  empty_cache, sample_crypto, sample_request, sample_signer,
}
use agent_delegation_network.Tests.Signing.{sample_receipt}
use agent_delegation_network.Verifier.Acceptance.{
  IsFresh, result_verified_once, verify_worker_result_sound,
}
use agent_delegation_network.Verifier.Guarantees.{IsGenuine}
use agent_delegation_network.Verifier.Nonces.{
  consume_result_nonce, is_seen, key_of, prune_seen_nonces,
}
use agent_delegation_network.Verifier.Verification.{
  Expectation, check_arguments, check_envelope, check_parties, check_receipt, check_result,
  consume_replay, result_replay_key, verify_worker_result,
}

abbrev work : DelegationResult
work = record {
  delegation_id = str "d";
  from_agent_id = str "0123456789ab";
  to_agent_id = str "coordinator";
  status = DelegationStatus.completed;
  result = bool true;
  error = null;
  nonce = str "n";
  issued_at = num 0;
  tee_authorization = obj sample_receipt;
}

abbrev work_message : Fields
work_message = result_to_action_request sample_crypto false "" sample_signer 0 work

abbrev expectation : Expectation
expectation = record {
  worker_id = "0123456789ab";
  worker_pubkey_hex = "pub";
  delegation_id = "d";
  coordinator_id = "coordinator";
  tee_authorization = obj sample_receipt;
  gateway_public_key_hex = some "pub";
  gateway_key_id = some "gateway";
  action = some "PING";
  parameters = obj end;
  build_config_id = some "build";
}

work_checked :
    check_result sample_crypto false (seconds 20) expectation work_message
    ≡ ok (result_payload work, sample_receipt)
unfolding check_result check_arguments check_envelope check_parties check_receipt
    verify_tee_authorization_receipt build_tee_authorization_receipt verify_action_request
    sign_action_request result_to_action_request result_payload check_request py_eq check_credential
    check_build check_window check_parameters check_proof tee_authorization_request_hash
    receipt_fingerprint receipt_body truthy is_str get parse_time digest key_fingerprint take_chars
    signature_ok
work_checked = refl

work_verified :
    (verify_worker_result sample_crypto false
      (seconds 5)
      (seconds 20)
      (ok (some "00"))
      expectation
      work_message
      empty_cache
      []).0
    ≡ ok (result_payload work)
unfolding verify_worker_result consume_replay result_payload consume_result_nonce prune_seen_nonces
    key_of hash_key truthy consume_result_replay select delete_expired upsert write_record
    compute_integrity_mac result_replay_key digest get is_seen
work_verified = rw work_checked refl

verify_worker_result_sound_example :
    IsGenuine sample_crypto (seconds 20) expectation work_message (result_payload work)
    × IsFresh sample_crypto false
        (seconds 5)
        (seconds 20)
        (ok (some "00"))
        expectation
        work_message
        (result_payload work)
        empty_cache
        []
verify_worker_result_sound_example =
    verify_worker_result_sound sample_crypto expectation work_message (seconds 5) (seconds 20)
      (ok (some "00")) empty_cache [] (result_payload work) work_verified

keys_differ : "k" ≢ result_replay_key sample_crypto expectation (result_payload work) sample_receipt
unfolding result_replay_key digest
keys_differ = ground (arith, eq_iff "k" "0123456789abcdef")

result_verified_once_example :
    (verify_worker_result sample_crypto false
      (seconds 1)
      (seconds 60)
      (ok (some "00"))
      expectation
      work_message
      empty_cache
      (run sample_crypto
        (begin sample_request (seconds 30) "b" ∷ [])
        (verify_worker_result sample_crypto false
          (seconds 5)
          (seconds 20)
          (ok (some "00"))
          expectation
          work_message
          empty_cache
          []).2)).0
    ≢ ok (result_payload work)
result_verified_once_example =
    result_verified_once sample_crypto expectation work_message false (seconds 5) (seconds 20)
      (ok (some "00")) empty_cache [] (result_payload work) sample_receipt
      (begin sample_request (seconds 30) "b" ∷ []) (seconds 1) (seconds 60) (ok (some "00"))
      empty_cache (result_payload work) tt work_checked work_verified
      ((omega arith, keys_differ), tt) (omega arith)
