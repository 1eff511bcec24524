-- ===== src/Verifier/Verification.antt =====
-- `verify_worker_result` and `_consume_result_replay` of src/result_verifier.py.
use agent_delegation_network.Auth.Hashing.{digest}
use agent_delegation_network.Auth.Verification.{verify_action_request}
use agent_delegation_network.Crypto.{Crypto}
use agent_delegation_network.Json.{
  Fields, Json, end, field, get, is_str, obj, opt_str, or_else, str, truthy,
}
use agent_delegation_network.Json.Equality.{is_null, py_eq}
use agent_delegation_network.Prelude.{
  Bool, Option, Result, String, if◌then◌else◌, none, not, ok, raise_if, raised, runtime_error, ℕ,
  ◌==◌, ◌>>=◌, ◌>>◌,
}
use agent_delegation_network.Protocol.Messages.{expect_dict}
use agent_delegation_network.ReplayLedger.Consumption.{ResultReplay, consume_result_replay}
use agent_delegation_network.ReplayLedger.Entry.{given, text_or}
use agent_delegation_network.ReplayLedger.Table.{Table}
use agent_delegation_network.Tee.Checks.{Expected, verify_tee_authorization_receipt}
use agent_delegation_network.Tee.Receipt.{receipt_fingerprint}
use agent_delegation_network.Verifier.Nonces.{Cache, consume_result_nonce}

-- The caller's expectations; a `None` is `none`, or `null` where any value may stand.
pub record Expectation : Type 0 where
  pub worker_id : String
  pub worker_pubkey_hex : String
  pub delegation_id : String
  pub coordinator_id : String
  pub tee_authorization : Json
  pub gateway_public_key_hex : Option String
  pub gateway_key_id : Option String
  pub action : Option String
  pub parameters : Json
  pub build_config_id : Option String

-- The arguments that must be given.
unfoldable pub check_arguments : Expectation → Result (Unit {0})
check_arguments x = do
  raise_if (is_null x.tee_authorization) (runtime_error "expected TEE authorization is required")
  raise_if (not (given x.gateway_public_key_hex))
      (runtime_error "expected gateway public key is required")
  raise_if (not (given x.gateway_key_id)) (runtime_error "expected gateway key id is required")
  raise_if (not (given x.build_config_id)) (runtime_error "expected build_config_id is required")
  raise_if (not (given x.action)) (runtime_error "expected action is required")
  raise_if (is_null x.parameters) (runtime_error "expected parameters are required")

-- `proof.get('result_data') or {}`
abbrev pub result_data : Fields → Json
result_data proof = or_else (obj end) (get "result_data" proof)

-- Who signed the result, for whom, and of what.
unfoldable pub check_parties : Expectation → Fields → Fields → Result (Unit {0})
check_parties x proof rd = do
  raise_if (not (py_eq (get "nonce" proof) (get "nonce" rd)))
      (runtime_error "result nonce inconsistent with signed envelope")
  raise_if (not (is_str x.worker_id (get "from_agent_id" rd)))
      (runtime_error "result from_agent_id mismatch")
  raise_if (not (is_str x.coordinator_id (get "to_agent_id" rd)))
      (runtime_error "result audience is not the coordinator")
  raise_if (not (is_str x.delegation_id (get "delegation_id" rd)))
      (runtime_error "result delegation_id mismatch")
  raise_if (not (is_str "COMPLETED" (get "status" rd)))
      (runtime_error "result status not COMPLETED")
  raise_if (not (truthy (get "tee_authorization" rd)))
      (runtime_error "result missing TEE authorization receipt")

abbrev pub expected_receipt : Expectation → Expected
expected_receipt x = record {
  gateway_pubkey_hex = text_or "" x.gateway_public_key_hex;
  gateway_key_id = text_or "" x.gateway_key_id;
  delegation_id = str x.delegation_id;
  to_agent_id = str x.worker_id;
  action = opt_str x.action;
  parameters = x.parameters;
  build_config_id = text_or "" x.build_config_id;
}

-- `v or ""` where `v` is a text if the checks before have passed
abbrev pub text_of : Json → String
text_of (str s) = s
text_of _ = ""

module _ (c : Crypto) where
  -- `ok, err = verify_action_request(proof, 'TASK_RESULT')`
  proof_accepted : Bool × String → Result (Unit {0})
  proof_accepted (valid, reason) =
      raise_if (not valid) (runtime_error "worker result signature invalid")

  unfoldable pub check_envelope : Bool → ℕ → Expectation → Fields → Result (Unit {0})
  unfolding proof_accepted
  check_envelope mock now x proof = do
    verdict ← verify_action_request c mock now proof "TASK_RESULT"
    proof_accepted verdict
    raise_if (not (is_str x.worker_pubkey_hex (get "public_key_hex" proof)))
        (runtime_error "worker key does not match expected worker")
    raise_if (not (is_str x.worker_id (get "agent_id" proof)))
        (runtime_error "worker result signer is not the expected worker")
    raise_if (not (is_str (digest c (result_data proof)) (get "data_hash" proof)))
        (runtime_error "worker result_data does not match signed data_hash")

  -- The receipt in the result is the one that the coordinator holds, and it authorizes the work.
  unfoldable pub check_receipt : Bool → ℕ → Expectation → Fields → Result Fields
  check_receipt mock now x rd = do
    receipt ← expect_dict (get "tee_authorization" rd)
    held ← expect_dict x.tee_authorization
    raise_if (not (receipt_fingerprint c receipt == receipt_fingerprint c held))
        (runtime_error "result TEE authorization receipt mismatch")
    verify_tee_authorization_receipt c mock now (expected_receipt x) (obj receipt)

  -- All checks up to the first change of state: the result's data and its receipt.
  unfoldable pub check_result : Bool → ℕ → Expectation → Fields → Result (Fields × Fields)
  check_result mock now x proof = do
    check_arguments x
    check_envelope mock now x proof
    rd ← expect_dict (result_data proof)
    check_parties x proof rd
    receipt ← check_receipt mock now x rd
    ok (rd, receipt)

  unfoldable pub result_replay_key : Expectation → Fields → Fields → String
  result_replay_key x rd receipt = digest c (
      obj (
        field "worker_public_key_hex" (str x.worker_pubkey_hex) (
          field "coordinator_id" (str x.coordinator_id) (
            field "delegation_id" (get "delegation_id" rd) (
              field "result_nonce" (get "nonce" rd)
                (field "receipt_fingerprint" (str (receipt_fingerprint c receipt)) end))))))

  abbrev pub replay_of : Expectation → Fields → Fields → Fields → Option String → ResultReplay
  replay_of x proof rd receipt secret = record {
    replay_key = result_replay_key x rd receipt;
    owner_agent_id = x.coordinator_id;
    delegation_id = text_of (get "delegation_id" rd);
    payload_fingerprint = text_of (get "data_hash" proof);
    expires_at = none;
    integrity_secret_hex = secret;
  }

  abbrev pub replay_verdict : Fields → Result (Bool × String) → Result Fields
  replay_verdict rd (raised e) = raised e
  replay_verdict rd (ok (fresh, reason)) = if fresh then ok rd else raised (runtime_error reason)

  -- `_consume_result_replay`; `secret` is `configured_integrity_key("result")`.
  unfoldable pub consume_replay :
      ℕ
      → Result (Option String)
      → Expectation
      → Fields
      → Fields × Fields
      → Table
      → Result Fields × Table
  consume_replay now (raised e) x proof (rd, receipt) db = (raised e, db)
  consume_replay now (ok secret) x proof (rd, receipt) db =
      let (r, db') = consume_result_replay c (replay_of x proof rd receipt secret) now db in
      (replay_verdict rd r, db')

  -- The nonce is consumed before the ledger is asked, and stays consumed if the ledger refuses.
  abbrev pub after_nonce :
      ℕ
      → Result (Option String)
      → Expectation
      → Fields
      → Fields × Fields
      → Table
      → Result (Unit {0}) × Cache
      → Result Fields × Cache × Table
  after_nonce now secret x proof data' db (raised e, q) = (raised e, q, db)
  after_nonce now secret x proof data' db (ok u, q) =
      let (r, db') = consume_replay now secret x proof data' db in (r, q, db')

  abbrev pub settle_result :
      ℕ
      → ℕ
      → Result (Option String)
      → Expectation
      → Fields
      → Cache
      → Table
      → Result (Fields × Fields)
      → Result Fields × Cache × Table
  settle_result mono now secret x proof q db (raised e) = (raised e, q, db)
  settle_result mono now secret x proof q db (ok data') =
      after_nonce now secret x proof data' db (consume_result_nonce mono (get "nonce" data'.0) q)

  -- `mono` is the reading of the monotonic clock, `now` that of the wall clock.
  unfoldable pub verify_worker_result :
      Bool
      → ℕ
      → ℕ
      → Result (Option String)
      → Expectation
      → Fields
      → Cache
      → Table
      → Result Fields × Cache × Table
  verify_worker_result mock mono now secret x proof q db =
      settle_result mono now secret x proof q db (check_result mock now x proof)
