-- ===== src/Release/Asset/Verdict.antt =====
-- The metadata and the verdict (scripts/verify_release_asset.py).
use agent_delegation_network.Json.{Fields, end, field, get, is_str, str}
use agent_delegation_network.Json.Equality.{py_eq}
use agent_delegation_network.Prelude.{
  List, Result, String, [], not, ok, raise_if, runtime_error, ◌>>=◌, ◌>>◌, ◌∷◌,
}
use agent_delegation_network.Prelude.Dict.{insert}
use agent_delegation_network.Protocol.Messages.{expect_dict}
use agent_delegation_network.Release.Asset.Listing.{
  AssetEntry, files_of, require_release_asset_files, validate_release_asset_manifest,
  verify_asset_signature, verify_release_asset_hashes,
}
use agent_delegation_network.Release.Asset.Unpacking.{unpack_proof_inputs}
use agent_delegation_network.Release.Directory.{verify_release_dir}
use agent_delegation_network.Release.Files.{Files, digest_hex, read_bytes, read_json}
use agent_delegation_network.Release.Platform.{Platform, Settings}
use agent_delegation_network.Text.Strings.{concat, concat_text}

module _ (p : Platform) where
  -- A digest of the metadata is the one of a file.
  unfoldable pub check_file_digest : Files → Fields → String → String → Result (Unit {0})
  unfolding read_bytes digest_hex is_str get concat_text
  check_file_digest files metadata key name = do
    content ← read_bytes files name
    raise_if (not (is_str (digest_hex p content) (get key metadata)))
        (runtime_error (concat ("workflow_metadata " ∷ key ∷ " mismatch" ∷ [])))

  unfoldable pub check_remote_result : Fields → Fields → Result (Unit {0})
  unfolding py_eq is_str get
  check_remote_result verdict remote = do
    raise_if (not (is_str "REMOTE_OK" (get "status" remote)))
        (runtime_error "remote_verification_result status must be REMOTE_OK")
    raise_if (not (py_eq (get "proof_input_digest" remote) (get "proof_input_digest" verdict))) (
        runtime_error
          "remote_verification_result proof_input_digest does not match release asset proof inputs")

  unfoldable pub check_metadata : Fields → Fields → Fields → Result (Unit {0})
  unfolding py_eq is_str get
  check_metadata verdict manifest metadata = do
    raise_if (not (is_str "REMOTE_OK" (get "remote_verification_status" metadata)))
        (runtime_error "workflow_metadata remote_verification_status must be REMOTE_OK")
    raise_if (not (py_eq (get "proof_input_digest" metadata) (get "proof_input_digest" verdict))) (
        runtime_error
          "workflow_metadata proof_input_digest does not match release asset proof inputs")
    raise_if (not (py_eq (get "proof_input_digest" manifest) (get "proof_input_digest" verdict))) (
        runtime_error
          "release asset manifest proof_input_digest does not match release asset proof inputs")

  unfoldable pub verify_release_asset_metadata : Files → Fields → Fields → Result (Unit {0})
  unfolding read_json py_eq get check_remote_result check_metadata check_file_digest
  verify_release_asset_metadata files manifest verdict = do
    ci_json ← read_json p files "ci_release_sha.json"
    remote_json ← read_json p files "remote_verification_result.json"
    metadata_json ← read_json p files "workflow_metadata.json"
    ci ← expect_dict ci_json
    raise_if (not (py_eq (get "proof_input_digest" ci) (get "proof_input_digest" verdict))) (
        runtime_error "CI attestation proof_input_digest does not match release asset proof inputs")
    remote ← expect_dict remote_json
    check_remote_result verdict remote
    metadata ← expect_dict metadata_json
    check_metadata verdict manifest metadata
    check_file_digest files metadata "proof_input_archive_sha256" "proof-input.tar"
    check_file_digest files metadata "ci_attestation_sha256" "ci_release_sha.json"
    check_file_digest files metadata "remote_verification_result_sha256"
        "remote_verification_result.json"

  abbrev pub asset_result : Fields → Fields → Fields
  asset_result release manifest = field "status" (str "RELEASE_ASSET_OK") (
      field "build_commit" (get "build_commit" release) (
        field "build_config_id" (get "build_config_id" release) (
          field "proof_input_digest" (get "proof_input_digest" release)
            (field "release_tag" (get "release_tag" manifest) end))))

  -- The proof inputs are unpacked into a directory of their own, and the attestation is put there.
  unfoldable pub verify_unpacked : Settings → Files → Result Fields
  unfolding read_bytes unpack_proof_inputs insert verify_release_dir
  verify_unpacked settings files = do
    tar_bytes ← read_bytes files "proof-input.tar"
    unpacked ← unpack_proof_inputs p tar_bytes
    ci_bytes ← read_bytes files "ci_release_sha.json"
    verify_release_dir p settings (insert "ci_release_sha.json" ci_bytes unpacked)

  unfoldable pub verify_asset_files : Settings → Files → Result Fields
  unfolding read_json validate_release_asset_manifest verify_asset_signature
      verify_release_asset_hashes verify_unpacked verify_release_asset_metadata get
  verify_asset_files settings files = do
    manifest_json ← read_json p files "release_asset_manifest.json"
    signature_json ← read_json p files "release_asset_manifest.sig"
    manifest ← expect_dict manifest_json
    validate_release_asset_manifest p manifest
    signature_doc ← expect_dict signature_json
    verify_asset_signature p settings manifest signature_doc
    verify_release_asset_hashes p files manifest
    release ← verify_unpacked settings files
    verify_release_asset_metadata files manifest release
    ok (asset_result release manifest)

  unfoldable pub verify_release_asset_dir : Settings → List AssetEntry → Result Fields
  unfolding require_release_asset_files files_of verify_asset_files
  verify_release_asset_dir settings es = do
    require_release_asset_files es
    verify_asset_files settings (files_of es)
