-- ===== src/Release/Guarantees/Inputs.antt =====
-- What verified proof inputs guarantee (scripts/verify_release.py).
use agent_delegation_network.Auth.Verification.{has_length}
use agent_delegation_network.Json.{Fields, Json, get, is_str, obj, str}
use agent_delegation_network.Json.Equality.{is_str→eq, py_eq}
use agent_delegation_network.Prelude.{
  >>-eq-ok, >>=-eq-ok, List, String, arith, eq_iff, false, invalid_signature, not, ok, raise_if,
  runtime_error, some, true, value_error, ℕ, ◌==◌, ◌>>=◌, ◌>>◌, ◌≡◌,
}
use agent_delegation_network.Protocol.Messages.{expect_dict}
use agent_delegation_network.Release.Canonical.{canonical_json}
use agent_delegation_network.Release.Files.{json_digest}
use agent_delegation_network.Release.Inputs.{
  Documents, check_behaviour, check_digests, check_replay,
}
use agent_delegation_network.Release.Manifest.{
  check_keys, check_signature, decode_hex, load_key, manifest_body, require_digest, text_field,
  verify_manifest_signature,
}
use agent_delegation_network.Release.Platform.{Platform, Settings, pinned_key_of}
use agent_delegation_network.Tee.Checks.{is_true}
use agent_delegation_network.Text.Strings.{strip_lower}
use agent_delegation_network.Verifier.Guarantees.{expect_dict-eq-ok}

-- A text that is stripped and put in lower case is the pinned key.
abbrev pub IsPinned : Platform → String → String → Fields → Type 0
IsPinned p pinned name d = strip_lower (text_field p name d) ≡ pinned

-- The key pinned in the environment is the one that both documents name, and it signed `body`.
pub record Signed (p : Platform) (pinned : String) (manifest signature_doc body : Fields)
    : Type 0 where
  pub algorithm : get "algorithm" signature_doc ≡ str "ed25519"
  pub pinned_given : (pinned == "") ≡ false
  pub manifest_key : IsPinned p pinned "operator_public_key" manifest
  pub signature_key : IsPinned p pinned "public_key_hex" signature_doc
  pub key : List ℕ
  pub key_decoded : p.crypto.from_hex pinned ≡ some key
  pub key_length : has_length 32 key ≡ true
  pub bytes : List ℕ
  pub bytes_decoded : p.crypto.from_hex (text_field p "signature_hex" signature_doc) ≡ some bytes
  pub verified : p.crypto.verify key bytes (canonical_json (obj body)) ≡ true

module _ (p : Platform) where
  require_digest_ok :
      (label expected : String) (v : Json)
      → require_digest p label expected v ≡ ok tt
      → json_digest p v ≡ expected
  unfolding require_digest
  require_digest_ok label expected v h = ground (arith, eq_iff (json_digest p v) expected)

  decode_hex_ok : (s : String) (b : List ℕ) → decode_hex p s ≡ ok b → p.crypto.from_hex s ≡ some b
  unfolding decode_hex
  decode_hex_ok s b h = ground arith

  load_key_ok :
      (s : String) (b : List ℕ)
      → load_key p s ≡ ok b
      → (p.crypto.from_hex s ≡ some b) × (has_length 32 b ≡ true)
  unfolding load_key
  load_key_ok s b h =
      let (bytes, decoded, h') =
        >>=-eq-ok (decode_hex p s)
          (λ bytes.
            raise_if (not (has_length 32 bytes))
              (value_error "An Ed25519 public key is 32 bytes long")
            >> ok bytes)
          h in
      let (checked, same) =
        >>-eq-ok
          (raise_if (not (has_length 32 bytes))
            (value_error "An Ed25519 public key is 32 bytes long"))
          (ok bytes) h' in
      ground (arith, decode_hex_ok s bytes decoded)

  check_signature_ok :
      (key : List ℕ) (s message : String)
      → check_signature p key s message ≡ ok tt
      → (b : List ℕ) × (p.crypto.from_hex s ≡ some b) × (p.crypto.verify key b message ≡ true)
  unfolding check_signature
  check_signature_ok key s message h =
      let (bytes, decoded, h') =
        >>=-eq-ok (decode_hex p s)
          (λ bytes. raise_if (not (p.crypto.verify key bytes message)) (invalid_signature "")) h in
      (bytes, decode_hex_ok s bytes decoded, ground arith)

  check_keys_ok :
      (m s pinned : String) (manifest doc : Fields)
      → check_keys p m s pinned manifest doc ≡ ok tt
      → (is_str "ed25519" (get "algorithm" doc) ≡ true)
        × ((pinned == "") ≡ false)
        × IsPinned p pinned "operator_public_key" manifest
        × IsPinned p pinned "public_key_hex" doc
  unfolding check_keys
  check_keys_ok m s pinned manifest doc h = ground (
    arith,
    eq_iff (strip_lower (text_field p "operator_public_key" manifest)) pinned,
    eq_iff (strip_lower (text_field p "public_key_hex" doc)) pinned,
  )

  -- The three steps that the two verifiers of manifests share.
  pub sign_off :
      (m s pinned : String) (manifest doc body : Fields) (key : List ℕ)
      → check_keys p m s pinned manifest doc ≡ ok tt
      → load_key p pinned ≡ ok key
      → check_signature p key (text_field p "signature_hex" doc) (canonical_json (obj body)) ≡ ok tt
      → Signed p pinned manifest doc body
  sign_off m s pinned manifest doc body key keys loaded checked =
      let (algorithm, given_key, named, signed) = check_keys_ok m s pinned manifest doc keys in
      let (decoded, size_ok) = load_key_ok pinned key loaded in
      let (bytes, bytes_ok, good) =
        check_signature_ok key (text_field p "signature_hex" doc) (canonical_json (obj body))
          checked in
      record {
        algorithm = is_str→eq "ed25519" (get "algorithm" doc) algorithm;
        pinned_given = given_key;
        manifest_key = named;
        signature_key = signed;
        key = key;
        key_decoded = decoded;
        key_length = size_ok;
        bytes = bytes;
        bytes_decoded = bytes_ok;
        verified = good;
      }

  -- A manifest whose signature is accepted was signed, without its own digest, by the pinned key.
  pub verify_manifest_signature_sound :
      (settings : Settings) (manifest doc : Fields)
      → verify_manifest_signature p settings manifest doc ≡ ok tt
      → Signed p (pinned_key_of settings) manifest doc (manifest_body manifest)
  unfolding verify_manifest_signature
  verify_manifest_signature_sound settings manifest doc h =
      let pinned = pinned_key_of settings in
      let (keys, h1) =
        >>-eq-ok (check_keys p "manifest" "deployment_manifest.sig" pinned manifest doc) _ h in
      let (key, loaded, checked) = >>=-eq-ok (load_key p pinned) _ h1 in
      sign_off "manifest" "deployment_manifest.sig" pinned manifest doc (manifest_body manifest) key
        keys loaded checked

  pub record Digests (manifest : Fields) (docs : Documents) : Type 0 where
    pub own : json_digest p (obj (manifest_body manifest)) ≡ text_field p "manifest_digest" manifest
    pub registration :
        json_digest p docs.registration ≡ text_field p "raw_registration_response_digest" manifest
    pub invocation : json_digest p docs.invocation ≡ text_field p "first_invocation_digest" manifest
    pub evidence : json_digest p docs.evidence ≡ text_field p "t3n_evidence_digest" manifest

  pub check_digests_ok :
      (manifest : Fields) (docs : Documents)
      → check_digests p manifest docs ≡ ok tt
      → Digests manifest docs
  unfolding check_digests
  check_digests_ok manifest docs h =
      let t : String → String = λ name. text_field p name manifest in
      let body = obj (manifest_body manifest) in
      let (own, h1) = >>-eq-ok (require_digest p "manifest" (t "manifest_digest") body) _ h in
      let (registration, h2) =
        >>-eq-ok
          (require_digest p "registration response" (t "raw_registration_response_digest")
            docs.registration)
          _ h1 in
      let (invocation, evidence) =
        >>-eq-ok (require_digest p "first invocation" (t "first_invocation_digest") docs.invocation)
          _ h2 in
      record {
        own = require_digest_ok "manifest" (t "manifest_digest") body own;
        registration =
            require_digest_ok "registration response" (t "raw_registration_response_digest")
              docs.registration registration;
        invocation =
            require_digest_ok "first invocation" (t "first_invocation_digest") docs.invocation
              invocation;
        evidence =
            require_digest_ok "T3N evidence" (t "t3n_evidence_digest") docs.evidence evidence;
      }

  pub record Replayed (manifest : Fields) (docs : Documents) : Type 0 where
    pub invocation : Fields
    pub invocation_is : docs.invocation ≡ obj invocation
    pub built : py_eq (get "build_config_id" invocation) (get "build_config_id" manifest) ≡ true
    pub replay : Fields
    pub replay_is : docs.replay ≡ obj replay
    pub replay_built : py_eq (get "build_config_id" replay) (get "build_config_id" manifest) ≡ true
    pub request_rejected : is_true (get "request_replay_rejected" replay) ≡ true
    pub result_rejected : is_true (get "result_replay_rejected" replay) ≡ true
    pub persisted : is_true (get "ledger_persisted_across_restart" replay) ≡ true

  pub check_behaviour_ok :
      (manifest : Fields) (docs : Documents)
      → check_behaviour p manifest docs ≡ ok tt
      → Replayed manifest docs
  unfolding check_behaviour check_replay
  check_behaviour_ok manifest docs h =
      let (invocation, is_invocation, h1) = >>=-eq-ok (expect_dict docs.invocation) _ h in
      let (built, h2) =
        >>-eq-ok
          (raise_if
            (not (py_eq (get "build_config_id" invocation) (get "build_config_id" manifest)))
            (runtime_error "invocation receipt build_config_id does not match manifest"))
          (expect_dict docs.replay >>= check_replay p manifest) h1 in
      let (replay, is_replay, h3) =
        >>=-eq-ok (expect_dict docs.replay) (check_replay p manifest) h2 in
      record {
        invocation = invocation;
        invocation_is = expect_dict-eq-ok docs.invocation invocation is_invocation;
        built = ground arith;
        replay = replay;
        replay_is = expect_dict-eq-ok docs.replay replay is_replay;
        replay_built = ground arith;
        request_rejected = ground arith;
        result_rejected = ground arith;
        persisted = ground arith;
      }
