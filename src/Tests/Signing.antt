-- ===== src/Tests/Signing.antt =====
-- Signed requests.
use agent_delegation_network.Auth.Hashing.{digest, key_fingerprint, take_chars}
use agent_delegation_network.Auth.RoundTrip.{signed_verifies}
use agent_delegation_network.Auth.Signing.{sign_action_request}
use agent_delegation_network.Auth.Soundness.{IsAuthentic, verify_action_request_sound}
use agent_delegation_network.Auth.Verification.{parse_time, signature_ok, verify_action_request}
use agent_delegation_network.Json.{Fields, bool, end, field, get, is_str, obj, str, truthy}
use agent_delegation_network.Json.Equality.{py_eq}
use agent_delegation_network.Prelude.{Result, arith, false, none, ok, raised, refl, some, true, ◌≡◌}
use agent_delegation_network.ReplayLedger.Entry.{seconds}
use agent_delegation_network.Tee.Checks.{
  Expected, check_build, check_credential, check_parameters, check_proof, check_request,
  check_window, verify_tee_authorization_receipt,
}
use agent_delegation_network.Tee.Guarantees.{Authorizes, verify_tee_authorization_receipt_sound}
use agent_delegation_network.Tee.Receipt.{
  build_tee_authorization_receipt, receipt_action, receipt_body, tee_authorization_request_hash,
}
use agent_delegation_network.Tests.Samples.{
  clock_crypto, clock_crypto-ReadsBack, sample_crypto, sample_signer, sample_signer-IsKeyPair,
}

abbrev signed : Fields
signed = sign_action_request sample_crypto false "" "PING" (str "nonce") none sample_signer 0

signed_accepted :
    verify_action_request sample_crypto false (seconds 200) signed "PING" ≡ ok (true, "")
unfolding verify_action_request sign_action_request is_str get parse_time digest key_fingerprint
    take_chars signature_ok
signed_accepted = refl

verify_action_request_sound_example : IsAuthentic sample_crypto (seconds 200) signed "PING"
verify_action_request_sound_example =
    verify_action_request_sound sample_crypto (seconds 200) signed "PING" "" signed_accepted

signed_verifies_example :
    verify_action_request clock_crypto false
      (seconds 310)
      (sign_action_request clock_crypto false "" "PING"
        (str "nonce")
        (some (str "data"))
        sample_signer
        (seconds 10))
      "PING"
    ≡ ok (true, "")
signed_verifies_example =
    signed_verifies clock_crypto sample_signer clock_crypto-ReadsBack sample_signer-IsKeyPair "PING"
      (str "nonce") (seconds 10) (seconds 310) (some (str "data")) (omega arith)

abbrev tee_result : Fields
tee_result = field "delegation_id" (str "d") (
    field "status" (str "ROUTED") (
      field "routed_to" (str "0123456789ab") (
        field "credential_fingerprint" (str "f") (
          field "credential_enforced" (bool true) (
            field "build_config_id" (str "build")
              (field "authorization_expires_at" (str "later") end))))))

abbrev built : Result Fields → Fields
built (ok receipt) = receipt
built (raised x) = end

abbrev pub sample_receipt : Fields
sample_receipt = built (
    build_tee_authorization_receipt sample_crypto false "" sample_signer "gateway" tee_result
      (str "PING") (obj end) 0)

abbrev sample_expected : Expected
sample_expected = record {
  gateway_pubkey_hex = "pub";
  gateway_key_id = "gateway";
  delegation_id = str "d";
  to_agent_id = str "0123456789ab";
  action = str "PING";
  parameters = obj end;
  build_config_id = "build";
}

receipt_accepted :
    verify_tee_authorization_receipt sample_crypto false
      (seconds 20)
      sample_expected
      (obj sample_receipt)
    ≡ ok sample_receipt
unfolding verify_tee_authorization_receipt build_tee_authorization_receipt verify_action_request
    sign_action_request check_request py_eq check_credential check_build check_window
    check_parameters check_proof tee_authorization_request_hash receipt_body truthy is_str get
    parse_time digest key_fingerprint take_chars signature_ok
receipt_accepted = refl

verify_tee_authorization_receipt_sound_example :
    (a : Authorizes sample_crypto false (seconds 20) sample_expected sample_receipt) × IsAuthentic
      sample_crypto
      (seconds 20)
      a.proof
      receipt_action
    × (sample_receipt ≡ sample_receipt)
verify_tee_authorization_receipt_sound_example =
    verify_tee_authorization_receipt_sound sample_crypto (seconds 20) sample_expected sample_receipt
      sample_receipt receipt_accepted
