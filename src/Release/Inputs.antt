-- ===== src/Release/Inputs.antt =====
-- `verify_release_inputs` of scripts/verify_release.py.
use agent_delegation_network.Json.{Fields, Json, arr, end, field, get, is_str, obj, str}
use agent_delegation_network.Json.Equality.{py_eq}
use agent_delegation_network.Prelude.{
  List, Result, String, [], not, ok, raise_if, runtime_error, ◌>>=◌, ◌>>◌, ◌∷◌,
}
use agent_delegation_network.Protocol.Messages.{expect_dict}
use agent_delegation_network.Release.Files.{
  Files, compute_proof_input_digest, proof_input_files, read_json, require_files, str_items,
}
use agent_delegation_network.Release.Manifest.{
  manifest_body, require_digest, require_fields, text_field, verify_manifest_signature,
}
use agent_delegation_network.Release.Platform.{Platform, Settings}
use agent_delegation_network.Release.Schema.{release_schema, validate_manifest_schema}
use agent_delegation_network.Tee.Checks.{is_true}

-- The documents of a proof directory, before any of them is known to be a dict.
pub record Documents : Type 0 where
  pub manifest : Json
  pub signature : Json
  pub registration : Json
  pub invocation : Json
  pub evidence : Json
  pub replay : Json

abbrev pub required_manifest_fields : List String
required_manifest_fields =
    "schema_version" ∷ "build_commit" ∷ "build_config_id" ∷ "local_wasm_sha256"
    ∷ "remote_contract_id" ∷ "raw_registration_response_digest" ∷ "first_invocation_digest"
    ∷ "t3n_evidence_digest" ∷ "operator_public_key" ∷ "manifest_digest" ∷ []

module _ (p : Platform) where
  unfoldable pub read_documents : Files → Result Documents
  unfolding read_json
  read_documents files = do
    manifest ← read_json p files "deployment_manifest.json"
    signature ← read_json p files "deployment_manifest.sig"
    registration ← read_json p files "registration_response.json"
    invocation ← read_json p files "invocation_receipt.json"
    evidence ← read_json p files "t3n_evidence.json"
    replay ← read_json p files "replay_restart_proof.json"
    ok (record {
      manifest = manifest;
      signature = signature;
      registration = registration;
      invocation = invocation;
      evidence = evidence;
      replay = replay;
    })

  unfoldable pub check_manifest_shape : Fields → Result (Unit {0})
  unfolding validate_manifest_schema require_fields is_str get
  check_manifest_shape manifest = do
    validate_manifest_schema p release_schema manifest
    require_fields "deployment manifest" manifest required_manifest_fields
    raise_if (not (is_str "adn-release-proof-v1" (get "schema_version" manifest)))
        (runtime_error "deployment manifest schema_version must be adn-release-proof-v1")

  unfoldable pub check_digests : Fields → Documents → Result (Unit {0})
  unfolding require_digest manifest_body
  check_digests manifest docs = do
    require_digest p "manifest" (text_field p "manifest_digest" manifest)
        (obj (manifest_body manifest))
    require_digest p "registration response"
        (text_field p "raw_registration_response_digest" manifest) docs.registration
    require_digest p "first invocation" (text_field p "first_invocation_digest" manifest)
        docs.invocation
    require_digest p "T3N evidence" (text_field p "t3n_evidence_digest" manifest) docs.evidence

  unfoldable pub check_replay : Fields → Fields → Result (Unit {0})
  unfolding py_eq get
  check_replay manifest replay = do
    raise_if (not (py_eq (get "build_config_id" replay) (get "build_config_id" manifest)))
        (runtime_error "replay proof build_config_id does not match manifest")
    raise_if (not (is_true (get "request_replay_rejected" replay)))
        (runtime_error "replay proof does not show request replay rejection")
    raise_if (not (is_true (get "result_replay_rejected" replay)))
        (runtime_error "replay proof does not show result replay rejection")
    raise_if (not (is_true (get "ledger_persisted_across_restart" replay)))
        (runtime_error "replay proof does not show restart persistence")

  unfoldable pub check_behaviour : Fields → Documents → Result (Unit {0})
  unfolding check_replay py_eq get
  check_behaviour manifest docs = do
    invocation ← expect_dict docs.invocation
    raise_if (not (py_eq (get "build_config_id" invocation) (get "build_config_id" manifest)))
        (runtime_error "invocation receipt build_config_id does not match manifest")
    replay ← expect_dict docs.replay
    check_replay manifest replay

  abbrev pub input_result : Fields → String → Fields
  input_result manifest digest' = field "status" (str "INPUT_OK") (
      field "build_commit" (get "build_commit" manifest) (
        field "build_config_id" (get "build_config_id" manifest) (
          field "proof_input_digest" (str digest')
            (field "proof_input_files" (arr (str_items proof_input_files)) end))))

  unfoldable pub verify_documents : Settings → Files → Documents → Result Fields
  unfolding check_manifest_shape check_digests verify_manifest_signature check_behaviour
      compute_proof_input_digest
  verify_documents settings files docs = do
    manifest ← expect_dict docs.manifest
    check_manifest_shape manifest
    check_digests manifest docs
    signature_doc ← expect_dict docs.signature
    verify_manifest_signature p settings manifest signature_doc
    check_behaviour manifest docs
    proof_input_digest ← compute_proof_input_digest p files
    ok (input_result manifest proof_input_digest)

  unfoldable pub verify_release_inputs : Settings → Files → Result Fields
  unfolding require_files read_documents verify_documents
  verify_release_inputs settings files = do
    require_files files proof_input_files
    docs ← read_documents files
    verify_documents settings files docs
