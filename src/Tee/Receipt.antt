-- ===== src/Tee/Receipt.antt =====
-- The receipt, its fingerprint and its construction (src/tee_authorization.py).
use agent_delegation_network.Auth.Hashing.{digest}
use agent_delegation_network.Auth.Signing.{Signer, sign_action_request}
use agent_delegation_network.Crypto.{Crypto}
use agent_delegation_network.Json.{
  Fields, Json, append, end, field, get, obj, or_else, pick, str, truthy,
}
use agent_delegation_network.Prelude.{
  Bool, List, Result, String, [], not, ok, raise_if, some, value_error, ℕ, ◌==◌, ◌>>◌, ◌||◌, ◌∷◌,
}

abbrev pub receipt_version : String
receipt_version = "adn.tee_authorization/1"

abbrev pub receipt_action : String
receipt_action = "TEE_AUTHORIZATION"

abbrev pub receipt_keys : List String
receipt_keys =
    "v" ∷ "delegation_id" ∷ "tee_delegation_id" ∷ "status" ∷ "to_agent_id" ∷ "action"
    ∷ "request_hash" ∷ "credential_fingerprint" ∷ "credential_enforced" ∷ "build_config_id"
    ∷ "tee_result_digest" ∷ "gateway_key_id" ∷ "authorization_expires_at" ∷ "authorized_at" ∷ []

-- `_receipt_body`
unfoldable pub receipt_body : Fields → Fields
unfolding pick
receipt_body receipt = pick receipt_keys receipt

module _ (c : Crypto) where
  unfoldable pub tee_authorization_request_hash : Json → Json → Json → String
  tee_authorization_request_hash to_agent_id action parameters = digest c (
      obj (
        field "to_agent_id" to_agent_id
          (field "action" action (field "parameters" (or_else (obj end) parameters) end))))

  unfoldable pub receipt_fingerprint : Fields → String
  receipt_fingerprint receipt = digest c (obj (receipt_body receipt))

  -- The body that the gateway signs.
  unfoldable pub built_body : Fields → String → Json → Json → ℕ → Fields
  built_body tee_result gateway_key_id action parameters now = field "v" (str receipt_version) (
      field "delegation_id" (get "delegation_id" tee_result) (
        field "tee_delegation_id" (get "delegation_id" tee_result) (
          field "status" (get "status" tee_result) (
            field "to_agent_id" (get "routed_to" tee_result) (
              field "action" action (
                field "request_hash"
                  (str
                    (tee_authorization_request_hash (get "routed_to" tee_result) action parameters))
                  (field "credential_fingerprint" (get "credential_fingerprint" tee_result) (
                    field "credential_enforced" (get "credential_enforced" tee_result) (
                      field "build_config_id" (get "build_config_id" tee_result) (
                        field "tee_result_digest" (str (digest c (obj tee_result))) (
                          field "gateway_key_id" (str gateway_key_id) (
                            field "authorization_expires_at"
                              (get "authorization_expires_at" tee_result)
                              (field "authorized_at" (str (c.iso_format now)) end)))))))))))))

  -- The mode of the process, its configured DID and the gateway's signer come first.
  unfoldable pub build_tee_authorization_receipt :
      Bool → String → Signer → String → Fields → Json → Json → ℕ → Result Fields
  unfolding built_body append
  build_tee_authorization_receipt mock did gateway gateway_key_id tee_result action parameters now =
      do
        let delegation_id = get "delegation_id" tee_result
        raise_if (not (truthy delegation_id) || not (truthy (get "routed_to" tee_result)))
            (value_error "TEE authorization requires delegation_id and routed_to")
        raise_if (gateway_key_id == "") (value_error "TEE authorization requires gateway_key_id")
        raise_if (not (truthy (get "authorization_expires_at" tee_result)))
            (value_error "TEE authorization requires authorization_expires_at")
        let body = built_body tee_result gateway_key_id action parameters now
        let proof =
            sign_action_request c mock did receipt_action delegation_id (some (obj body)) gateway
              now
        ok (
            append body (
              field "gateway_public_key_hex" (get "public_key_hex" proof)
                (field "gateway_proof" (obj proof) end)))
