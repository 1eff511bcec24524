-- ===== src/Protocol/Validation.antt =====
-- `DelegationProtocol` of src/delegation_protocol.py.
use agent_delegation_network.Auth.Hashing.{digest}
use agent_delegation_network.Auth.Verification.{verify_action_request}
use agent_delegation_network.Crypto.{Crypto}
use agent_delegation_network.Json.{
  Fields, Json, end, field, get, get_or, has, is_str, obj, or_else, str, truthy,
}
use agent_delegation_network.Json.Equality.{py_eq}
use agent_delegation_network.Prelude.{
  Bool, Option, Result, String, false, if◌then◌else◌, none, not, ok, raised, runtime_error, some,
  true, ℕ, ◌&&◌, ◌==◌, ◌>>=◌, ◌||◌,
}
use agent_delegation_network.Protocol.Messages.{
  DelegationRequest, expect_dict, is_expired, request_from_action_request,
}
use agent_delegation_network.Tee.Checks.{Expected, verify_tee_authorization_receipt}
use agent_delegation_network.Tee.Receipt.{receipt_fingerprint}

-- (valid, message, replay key)
abbrev pub Verdict : Type 0
Verdict = Bool × String × Option String

abbrev pub reject : String → Result Verdict
reject message = ok (false, message, none)

abbrev pub demand : Bool → String → Result Verdict → Result Verdict
demand true message rest = rest
demand false message rest = reject message

-- What the receiver expects of a receipt, and whether it insists on one.
pub record Receiver : Type 0 where
  pub agent_id : String
  pub gateway_public_key_hex : String
  pub gateway_key_id : String
  pub build_config_id : String
  pub requires_tee : Bool

abbrev pub is_set : String → Bool
is_set s = not (s == "")

-- `receipt_fingerprint(request.tee_authorization or {})`
abbrev pub receipt_or_empty : Json → Result Fields
receipt_or_empty v = expect_dict (or_else (obj end) v)

module _ (c : Crypto) where
  -- `signed_request.get("data_hash") or _sha256(_canonical(signed_request.get("delegation_data", {})))`
  unfoldable pub request_hash_of : Fields → Json
  request_hash_of signed_request =
      or_else (str (digest c (get_or (obj end) "delegation_data" signed_request)))
        (get "data_hash" signed_request)

  unfoldable pub replay_key_of : Fields → DelegationRequest → Fields → String
  unfolding request_hash_of
  replay_key_of signed_request r receipt = digest c (
      obj (
        field "delegation_id" r.delegation_id (
          field "request_hash" (request_hash_of signed_request)
            (field "gateway_receipt_fingerprint" (str (receipt_fingerprint c receipt)) end))))

  unfoldable pub validate_replay_key : Fields → DelegationRequest → Result Verdict
  validate_replay_key signed_request r = do
    receipt ← receipt_or_empty r.tee_authorization
    let key = replay_key_of signed_request r receipt
    demand (is_set key) "Delegation request replay key missing"
        (ok (true, "Delegation request is valid", some key))

  -- `except RuntimeError`: any other exception goes on.
  unfoldable pub receipt_verdict : Result Fields → Result Verdict → Result Verdict
  receipt_verdict (ok _) rest = rest
  receipt_verdict (raised (runtime_error message)) rest = reject "TEE authorization invalid"
  receipt_verdict (raised e) rest = raised e

  abbrev pub expected_of : Receiver → DelegationRequest → Expected
  expected_of x r = record {
    gateway_pubkey_hex = x.gateway_public_key_hex;
    gateway_key_id = x.gateway_key_id;
    delegation_id = r.delegation_id;
    to_agent_id = str x.agent_id;
    action = r.action;
    parameters = r.parameters;
    build_config_id = x.build_config_id;
  }

  unfoldable pub validate_receipt :
      Bool → ℕ → Receiver → Fields → DelegationRequest → Result Verdict
  unfolding receipt_verdict
  validate_receipt mock now x signed_request r =
      let rest = validate_replay_key signed_request r in
      if not (truthy r.tee_authorization)
      then rest
      else demand (is_set x.gateway_public_key_hex)
          "TEE authorization invalid: expected gateway public key is required"
          (demand (is_set x.gateway_key_id)
            "TEE authorization invalid: expected gateway key id is required"
            (demand (is_set x.build_config_id)
              "TEE authorization invalid: expected build_config_id is required"
              (receipt_verdict
                (verify_tee_authorization_receipt c mock now (expected_of x r) r.tee_authorization)
                rest)))

  unfoldable pub validate_request :
      Bool → ℕ → Receiver → Fields → DelegationRequest → Result Verdict
  validate_request mock now x signed_request r = do
    late ← is_expired now r
    demand (not late) "Delegation request has expired" (
        demand (py_eq r.to_agent_id (str x.agent_id)) "Delegation not addressed to this agent" (
          demand (not (x.requires_tee && not (truthy r.tee_authorization)))
            "TEE authorization receipt required before worker execution"
            (validate_receipt mock now x signed_request r)))

  -- The signed digest, if there is one, is that of the data that came with it.
  unfoldable pub data_untampered : Fields → Bool
  data_untampered signed_request =
      not (has "data_hash" signed_request)
      || is_str (digest c (get_or (obj end) "delegation_data" signed_request))
          (get "data_hash" signed_request)

  unfoldable pub validate_data : Bool → ℕ → Receiver → Fields → Result Verdict
  validate_data mock now x signed_request =
      demand (data_untampered signed_request) "DELEGATION_DATA_TAMPERED: payload hash mismatch" (
        request_from_action_request now signed_request
        >>= validate_request mock now x signed_request)

  -- The reason of a failed proof is the tail of the message in the source.
  abbrev pub after_proof : Bool × String → Result Verdict → Result Verdict
  after_proof (valid, reason) rest = demand valid "Signature verification failed" rest

  unfoldable pub validate_delegation_request : Bool → ℕ → Receiver → Fields → Result Verdict
  validate_delegation_request mock now x signed_request = do
    verdict ← verify_action_request c mock now signed_request "DELEGATE_TASK"
    after_proof verdict (validate_data mock now x signed_request)
