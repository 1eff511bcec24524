-- ===== src/Release/Manifest.antt =====
-- The checks of a signed manifest (scripts/verify_release.py).
use agent_delegation_network.Audit.{remove}
use agent_delegation_network.Auth.Verification.{has_length}
use agent_delegation_network.Json.{Fields, Json, get, get_or, is_str, obj, str}
use agent_delegation_network.Prelude.{
  List, Result, String, [], if◌then◌else◌, invalid_signature, none, not, ok, raise_if, raised,
  runtime_error, some, value_error, ℕ, ◌==◌, ◌>>=◌, ◌>>◌, ◌∷◌,
}
use agent_delegation_network.Release.Canonical.{canonical_json}
use agent_delegation_network.Release.Files.{is_empty, json_digest}
use agent_delegation_network.Release.Platform.{Platform, Settings, pinned_key_of, py_str}
use agent_delegation_network.Release.Schema.{blank}
use agent_delegation_network.Text.Strings.{concat, concat_text, join_names, strip_lower}

-- `{k: v for k, v in manifest.items() if k != "manifest_digest"}`
unfoldable pub manifest_body : Fields → Fields
unfolding remove
manifest_body manifest = remove "manifest_digest" manifest

unfoldable pub missing_names : List String → Fields → List String
unfolding get
missing_names [] payload = []
missing_names (name ∷ names) payload =
    let rest = missing_names names payload in if blank (get name payload) then name ∷ rest else rest

unfoldable pub require_fields : String → Fields → List String → Result (Unit {0})
unfolding missing_names concat join_names
require_fields label payload names = raise_if (not (is_empty (missing_names names payload))) (
    runtime_error (
      concat
        (label ∷ " missing required fields: " ∷ join_names (missing_names names payload) ∷ [])))

module _ (p : Platform) where
  unfoldable pub require_digest : String → String → Json → Result (Unit {0})
  unfolding json_digest concat
  require_digest label expected payload = raise_if (not (json_digest p payload == expected)) (
      runtime_error (
        concat (
          label
          ∷ " digest mismatch: expected "
          ∷ expected
          ∷ ", got "
          ∷ json_digest p payload
          ∷ [])))

  -- `str(d.get(name, ""))`
  abbrev pub text_field : String → Fields → String
  text_field name d = py_str p (get_or (str "") name d)

  -- `bytes.fromhex(s)`
  unfoldable pub decode_hex : String → Result (List ℕ)
  decode_hex s = elim (p.crypto.from_hex s) [
    | none ↦ raised (value_error "non-hexadecimal number found in fromhex() arg")
    | some bytes ↦ ok bytes
  ]

  -- `Ed25519PublicKey.from_public_bytes(bytes.fromhex(k))`
  unfoldable pub load_key : String → Result (List ℕ)
  unfolding decode_hex
  load_key k = do
    bytes ← decode_hex k
    raise_if (not (has_length 32 bytes)) (value_error "An Ed25519 public key is 32 bytes long")
    ok bytes

  -- `key.verify(bytes.fromhex(signature), text)`, which raises InvalidSignature
  unfoldable pub check_signature : List ℕ → String → String → Result (Unit {0})
  unfolding decode_hex
  check_signature key signature_hex message = do
    bytes ← decode_hex signature_hex
    raise_if (not (p.crypto.verify key bytes message)) (invalid_signature "")

  -- The comparison of the keys, which the two verifiers of manifests share; `m` and `s` name the two
  -- documents in the messages.
  unfoldable pub check_keys : String → String → String → Fields → Fields → Result (Unit {0})
  unfolding strip_lower concat_text is_str get
  check_keys m s pinned manifest signature_doc = do
    raise_if (not (is_str "ed25519" (get "algorithm" signature_doc)))
        (runtime_error (concat_text s " algorithm must be ed25519"))
    raise_if (pinned == "") (runtime_error "ADN_RELEASE_OPERATOR_PUBLIC_KEY_HEX is required")
    raise_if (not (strip_lower (text_field "operator_public_key" manifest) == pinned))
        (runtime_error (concat_text m " operator_public_key does not match pinned release key"))
    raise_if (not (strip_lower (text_field "public_key_hex" signature_doc) == pinned))
        (runtime_error (concat_text s " public_key_hex does not match pinned release key"))

  unfoldable pub verify_manifest_signature : Settings → Fields → Fields → Result (Unit {0})
  unfolding check_keys load_key check_signature manifest_body canonical_json
  verify_manifest_signature settings manifest signature_doc = do
    check_keys "manifest" "deployment_manifest.sig" (pinned_key_of settings) manifest signature_doc
    key ← load_key (pinned_key_of settings)
    check_signature key (text_field "signature_hex" signature_doc)
        (canonical_json (obj (manifest_body manifest)))
