-- ===== src/Auth/Signing.antt =====
-- `sign_action_request` of src/terminal3_agent_auth_adapter.py.
use agent_delegation_network.Auth.Hashing.{digest}
use agent_delegation_network.Crypto.{Crypto}
use agent_delegation_network.Json.{Fields, Json, append, end, field, obj, str}
use agent_delegation_network.Prelude.{
  Bool, Option, String, false, if◌then◌else◌, none, some, true, ℕ, ◌+◌, ◌==◌,
}
use agent_delegation_network.ReplayLedger.Entry.{seconds}

abbrev pub audience : String
audience = "t3n-adn-v1"

-- PROOF_TTL_SECONDS, in microseconds
abbrev pub proof_ttl : ℕ
proof_ttl = seconds 300

-- The key and the names that sign; `did` is `None` where none is configured.
pub record Signer : Type 0 where
  pub private_key : String
  pub pub_hex : String
  pub agent_id : String
  pub did : Json

abbrev pub mock_public_key_hex : String
mock_public_key_hex = "aabbcc0000000000000000000000000000000000000000000000000000000000"

abbrev pub mock_signature_hex : String
mock_signature_hex =
    "deadbeef000000000000000000000000000000000000000000000000000000000000000000000000000000000000000000000000000000000000000000000000"

-- The payload's last field, if there is data to bind.
abbrev pub data_field : Option String → Fields
data_field none = end
data_field (some hash) = field "data_hash" (str hash) end

module _ (c : Crypto) where
  abbrev pub data_hash : Option Json → Option String
  data_hash none = none
  data_hash (some v) = some (digest c v)

  unfoldable pub signed_payload : String → Json → String → String → Json → Option Json → ℕ → Fields
  signed_payload agent_id did pub_hex action nonce data' now = field "agent_id" (str agent_id) (
      field "did" did (
        field "public_key_hex" (str pub_hex) (
          field "action" (str action) (
            field "nonce" nonce (
              field "issued_at" (str (c.iso_format now)) (
                field "expires_at" (str (c.iso_format (now + proof_ttl)))
                  (field "audience" (str audience) (data_field (data_hash data')))))))))

  -- `{**payload, "payload_hash": …, "signature_hex": …}`
  abbrev pub sealed_payload : Fields → String → String → Fields
  sealed_payload payload hash signature =
      append payload (field "payload_hash" (str hash) (field "signature_hex" (str signature) end))

  -- With the process in mock mode `configured_did` is the environment's, if any.
  unfoldable pub sign_action_request :
      Bool → String → String → Json → Option Json → Signer → ℕ → Fields
  unfolding signed_payload append
  sign_action_request true configured_did action nonce data' s now =
      let did : String = if configured_did == "" then "did:t3n:mock-agent" else configured_did in
      let payload =
        signed_payload "mock-agent-001" (str did) mock_public_key_hex action nonce data' now in
      sealed_payload payload (digest c (obj payload)) mock_signature_hex
  sign_action_request false configured_did action nonce data' s now =
      let payload = signed_payload s.agent_id s.did s.pub_hex action nonce data' now in
      let hash = digest c (obj payload) in sealed_payload payload hash (c.sign s.private_key hash)
