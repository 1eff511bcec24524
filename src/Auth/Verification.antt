-- ===== src/Auth/Verification.antt =====
-- `verify_action_request` of src/terminal3_agent_auth_adapter.py.
use agent_delegation_network.Auth.Hashing.{digest, key_fingerprint}
use agent_delegation_network.Auth.Signing.{audience}
use agent_delegation_network.Crypto.{Crypto, IsoTime, aware, naive}
use agent_delegation_network.Json.{Fields, Json, get, has, has_all, is_str, obj, pick, str}
use agent_delegation_network.Prelude.{
  Bool, Exception, List, Option, Result, String, [], false, if◌then◌else◌, leb, length, ltb, none,
  not, ok, raised, require, some, true, type_error, ℕ, ◌&&◌, ◌>>=◌, ◌∷◌,
}

abbrev pub required_fields : List String
required_fields =
    "agent_id" ∷ "did" ∷ "public_key_hex" ∷ "action" ∷ "nonce" ∷ "issued_at" ∷ "expires_at"
    ∷ "audience" ∷ "signature_hex" ∷ "payload_hash" ∷ []

-- `_PAYLOAD_KEYS`
abbrev pub payload_keys : Bool → List String
payload_keys with_data =
    "agent_id"
    ∷ "did"
    ∷ "public_key_hex"
    ∷ "action"
    ∷ "nonce"
    ∷ "issued_at"
    ∷ "expires_at"
    ∷ "audience"
    ∷ (if with_data then "data_hash" ∷ [] else [])

-- The payload, rebuilt from the proof as it was signed.
unfoldable pub payload_of : Fields → Fields
unfolding pick has
payload_of proof = pick (payload_keys (has "data_hash" proof)) proof

abbrev pub invalid : Result (Bool × String)
invalid = ok (false, "IDENTITY_INVALID")

-- A time with no offset is read in UTC.
abbrev pub instant : IsoTime → ℕ
instant (aware t) = t
instant (naive t) = t

abbrev type_mismatch : Exception
type_mismatch = type_error "argument must be str"

-- `len(bytes) == n`
abbrev pub has_length : ℕ → List ℕ → Bool
has_length n bytes = leb n (length bytes) && leb (length bytes) n

module _ (c : Crypto) where
  -- `datetime.fromisoformat(v)`: `none` is the ValueError; a value that is no text is a TypeError.
  unfoldable pub parse_time : Json → Result (Option ℕ)
  parse_time (str s) = elim (c.from_iso_format s) [
    | none ↦ ok none
    | some t ↦ ok (some (instant t))
  ]
  parse_time _ = raised type_mismatch

  -- Ed25519 over the payload hash; whatever it raises is caught.
  signature_bytes : List ℕ → Option (List ℕ) → String → Bool
  signature_bytes key none message = false
  signature_bytes key (some bytes) message = has_length 64 bytes && c.verify key bytes message

  unfoldable pub signature_ok : List ℕ → Json → String → Bool
  unfolding signature_bytes
  signature_ok key (str signature_hex) message =
      signature_bytes key (c.from_hex signature_hex) message
  signature_ok key _ message = false

  -- The checks of live mode: the fingerprint of the key, and the signature.
  unfoldable pub verify_signature : Fields → List ℕ → Result (Bool × String)
  verify_signature proof key =
      require (signature_ok key (get "signature_hex" proof) (digest c (obj (payload_of proof))))
        "IDENTITY_INVALID" (ok (true, ""))

  unfoldable pub verify_fingerprint : Fields → List ℕ → Result String → Result (Bool × String)
  unfolding verify_signature
  verify_fingerprint proof key (raised x) = invalid
  verify_fingerprint proof key (ok expected_fp) =
      require (is_str expected_fp (get "agent_id" proof)) "IDENTITY_INVALID"
        (verify_signature proof key)

  unfoldable pub verify_key : Fields → String → Option (List ℕ) → Result (Bool × String)
  unfolding verify_fingerprint
  verify_key proof pub_key_hex none = invalid
  verify_key proof pub_key_hex (some key) =
      require (has_length 32 key) "IDENTITY_INVALID"
        (verify_fingerprint proof key (key_fingerprint c pub_key_hex))

  unfoldable pub verify_live : Fields → Json → Result (Bool × String)
  unfolding verify_key
  verify_live proof (str pub_key_hex) = verify_key proof pub_key_hex (c.from_hex pub_key_hex)
  verify_live proof _ = raised type_mismatch

  unfoldable pub verify_payload : Bool → Fields → Result (Bool × String)
  unfolding verify_live
  verify_payload mock proof =
      require (is_str (digest c (obj (payload_of proof))) (get "payload_hash" proof))
        "IDENTITY_INVALID"
        (if mock then ok (true, "") else verify_live proof (get "public_key_hex" proof))

  unfoldable pub verify_expiry : Bool → ℕ → Fields → Option ℕ → Result (Bool × String)
  unfolding verify_payload
  verify_expiry mock now proof none = invalid
  verify_expiry mock now proof (some expires) =
      require (not (ltb expires now)) "PROOF_EXPIRED" (verify_payload mock proof)

  unfoldable pub verify_action_request : Bool → ℕ → Fields → String → Result (Bool × String)
  unfolding verify_expiry has_all
  verify_action_request mock now proof expected_action =
      require (has_all required_fields proof) "IDENTITY_MISSING" (
        require (is_str expected_action (get "action" proof)) "IDENTITY_INVALID" (
          require (is_str audience (get "audience" proof)) "IDENTITY_INVALID"
            (parse_time (get "expires_at" proof) >>= verify_expiry mock now proof)))
