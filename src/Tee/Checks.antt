-- ===== src/Tee/Checks.antt =====
-- `verify_tee_authorization_receipt` of src/tee_authorization.py, check by check.
use agent_delegation_network.Auth.Hashing.{digest}
use agent_delegation_network.Auth.Verification.{parse_time, verify_action_request}
use agent_delegation_network.Crypto.{Crypto}
use agent_delegation_network.Json.{Fields, Json, bool, get, is_str, obj, truthy}
use agent_delegation_network.Json.Equality.{is_null, py_eq}
use agent_delegation_network.Prelude.{
  Bool, Option, Result, String, false, ltb, none, not, ok, raise_if, raised, runtime_error, some,
  true, ℕ, ◌&&◌, ◌==◌, ◌>>=◌, ◌>>◌,
}
use agent_delegation_network.Tee.Receipt.{
  receipt_action, receipt_body, receipt_version, tee_authorization_request_hash,
}

-- The caller's expectations; `None` parameters are `null`, and a missing id is the empty text.
pub record Expected : Type 0 where
  pub gateway_pubkey_hex : String
  pub gateway_key_id : String
  pub delegation_id : Json
  pub to_agent_id : Json
  pub action : Json
  pub parameters : Json
  pub build_config_id : String

-- `v is True`
abbrev pub is_true : Json → Bool
is_true (bool true) = true
is_true _ = false

abbrev pub as_dict : Json → Option Fields
as_dict (obj fs) = some fs
as_dict _ = none

-- Version, status, ids and action.
unfoldable pub check_request : Expected → Fields → Result (Unit {0})
check_request x body = do
  raise_if (not (is_str receipt_version (get "v" body)))
      (runtime_error "TEE authorization receipt version invalid")
  raise_if (not (is_str "ROUTED" (get "status" body)))
      (runtime_error "TEE authorization receipt status is not ROUTED")
  raise_if (not (py_eq (get "delegation_id" body) x.delegation_id))
      (runtime_error "TEE authorization delegation_id mismatch")
  raise_if (not (py_eq (get "tee_delegation_id" body) x.delegation_id))
      (runtime_error "TEE authorization TEE delegation_id mismatch")
  raise_if (not (py_eq (get "to_agent_id" body) x.to_agent_id))
      (runtime_error "TEE authorization target mismatch")
  raise_if (not (py_eq (get "action" body) x.action))
      (runtime_error "TEE authorization action mismatch")
  ok tt

-- Credential, build, digest and gateway key.
unfoldable pub check_credential : Expected → Fields → Result (Unit {0})
check_credential x body = do
  raise_if (not (truthy (get "credential_fingerprint" body)))
      (runtime_error "TEE authorization credential fingerprint missing")
  raise_if (not (is_true (get "credential_enforced" body)))
      (runtime_error "TEE authorization credential enforcement missing")
  raise_if (not (truthy (get "build_config_id" body)))
      (runtime_error "TEE authorization build_config_id missing")
  raise_if (not (truthy (get "tee_result_digest" body)))
      (runtime_error "TEE authorization T3N result digest missing")
  raise_if (not (truthy (get "gateway_key_id" body)))
      (runtime_error "TEE authorization gateway_key_id missing")
  raise_if (x.gateway_key_id == "")
      (runtime_error "TEE authorization expected gateway_key_id required")
  raise_if (not (is_str x.gateway_key_id (get "gateway_key_id" body)))
      (runtime_error "TEE authorization gateway_key_id mismatch")
  raise_if (not (truthy (get "authorization_expires_at" body)))
      (runtime_error "TEE authorization authorization_expires_at missing")
  ok tt

-- The build that was expected.
unfoldable pub check_build : Expected → Fields → Result (Unit {0})
check_build x body = do
  raise_if (x.build_config_id == "")
      (runtime_error "TEE authorization expected build_config_id required")
  raise_if (not (is_str x.build_config_id (get "build_config_id" body)))
      (runtime_error "TEE authorization build_config_id mismatch")
  ok tt

-- The end of the authorization, which is a time that has not passed.
unfoldable pub check_window : ℕ → Option ℕ → Result (Unit {0})
check_window now none = raised (runtime_error "TEE authorization authorization_expires_at invalid")
check_window now (some expires) =
    raise_if (ltb expires now) (runtime_error "TEE authorization authorization_expires_at expired")

module _ (c : Crypto) where
  -- The parameters, by the hash of the request.
  unfoldable pub check_parameters : Expected → Fields → Result (Unit {0})
  check_parameters x body =
      raise_if
        (not (is_null x.parameters)
          && not (
              is_str (tee_authorization_request_hash c x.to_agent_id x.action x.parameters)
                (get "request_hash" body)))
        (runtime_error "TEE authorization request_hash mismatch")

  proof_verdict : Bool × String → Result (Unit {0})
  proof_verdict (valid, _) = raise_if (not valid) (runtime_error "TEE authorization proof invalid")

  -- The gateway's signature over the body.
  unfoldable pub check_signed : Bool → ℕ → Expected → Fields → Fields → Fields → Result (Unit {0})
  unfolding proof_verdict
  check_signed mock now x receipt body proof = do
    raise_if (not (is_str x.gateway_pubkey_hex (get "gateway_public_key_hex" receipt)))
        (runtime_error "TEE authorization gateway key mismatch")
    raise_if (not (is_str x.gateway_pubkey_hex (get "public_key_hex" proof)))
        (runtime_error "TEE authorization proof signer mismatch")
    verdict ← verify_action_request c mock now proof receipt_action
    proof_verdict verdict
    raise_if (not (is_str (digest c (obj body)) (get "data_hash" proof)))
        (runtime_error "TEE authorization body does not match signed hash")

  unfoldable pub check_proof : Bool → ℕ → Expected → Fields → Fields → Result (Unit {0})
  unfolding check_signed
  check_proof mock now x receipt body = elim (as_dict (get "gateway_proof" receipt)) [
    | none ↦ raised (runtime_error "TEE authorization gateway proof missing")
    | some proof ↦ check_signed mock now x receipt body proof
  ]

  -- `deepcopy(receipt)` is the receipt.
  unfoldable pub verify_receipt : Bool → ℕ → Expected → Fields → Result Fields
  verify_receipt mock now x receipt = do
    let body = receipt_body receipt
    check_request x body
    check_credential x body
    expires ← parse_time c (get "authorization_expires_at" body)
    check_window now expires
    check_build x body
    check_parameters x body
    check_proof mock now x receipt body
    ok receipt

  unfoldable pub verify_tee_authorization_receipt : Bool → ℕ → Expected → Json → Result Fields
  unfolding verify_receipt
  verify_tee_authorization_receipt mock now x (obj receipt) = verify_receipt mock now x receipt
  verify_tee_authorization_receipt mock now x _ =
      raised (runtime_error "TEE authorization receipt missing")
