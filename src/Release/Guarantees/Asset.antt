-- ===== src/Release/Guarantees/Asset.antt =====
-- What a verified release asset guarantees (scripts/verify_release_asset.py).
use agent_delegation_network.Json.{Fields, Items, arr, get, obj}
use agent_delegation_network.Json.Equality.{py_eq}
use agent_delegation_network.Prelude.{
  >>-eq-ok, >>=-eq-ok, All, List, Result, ap, arith, attribute_error, invalid_signature, not, ok,
  ok-injective, os_error, permission_error, raise_if, raised, refl, runtime_error, true, type_error,
  value_error, ℕ, ◌∙◌, ◌≡◌,
}
use agent_delegation_network.Prelude.Dict.{insert}
use agent_delegation_network.Protocol.Messages.{expect_dict}
use agent_delegation_network.Release.Asset.Listing.{
  AssetEntry, as_runtime_error, files_of, payload_files, require_release_asset_files,
  validate_release_asset_manifest, verify_asset_signature, verify_release_asset_hashes,
}
use agent_delegation_network.Release.Asset.Unpacking.{unpack_proof_inputs}
use agent_delegation_network.Release.Asset.Verdict.{
  asset_result, check_metadata, check_remote_result, verify_asset_files, verify_release_asset_dir,
  verify_release_asset_metadata, verify_unpacked,
}
use agent_delegation_network.Release.Canonical.{canonical_json}
use agent_delegation_network.Release.Files.{Files, read_bytes, read_json}
use agent_delegation_network.Release.Guarantees.AssetList.{
  HashesMatch, is_listed, listed_files, listed_ok,
}
use agent_delegation_network.Release.Guarantees.Directory.{
  ReleaseVerified, verify_release_dir_sound,
}
use agent_delegation_network.Release.Guarantees.Inputs.{Signed, sign_off}
use agent_delegation_network.Release.Manifest.{
  check_keys, check_signature, load_key, manifest_body, text_field,
}
use agent_delegation_network.Release.Platform.{Platform, Settings, pinned_key_of}
use agent_delegation_network.Verifier.Guarantees.{expect_dict-eq-ok}

module _ (p : Platform) where
  not_relabelled : (r : Result (Unit {0})) → as_runtime_error p r ≡ ok tt → r ≡ ok tt
  not_relabelled (ok tt) h = refl
  not_relabelled (raised (invalid_signature e)) h = absurd (cc)
  not_relabelled (raised (runtime_error e)) h = h
  not_relabelled (raised (value_error e)) h = h
  not_relabelled (raised (type_error e)) h = h
  not_relabelled (raised (permission_error e)) h = h
  not_relabelled (raised (attribute_error e)) h = h
  not_relabelled (raised (os_error e)) h = h

  verify_asset_signature_ok :
      (settings : Settings) (manifest doc : Fields)
      → verify_asset_signature p settings manifest doc ≡ ok tt
      → Signed p (pinned_key_of settings) manifest doc (manifest_body manifest)
  unfolding verify_asset_signature
  verify_asset_signature_ok settings manifest doc h =
      let pinned = pinned_key_of settings in
      let (keys, h1) =
        >>-eq-ok
          (check_keys p "release asset manifest" "release_asset_manifest.sig" pinned manifest doc) _
          h in
      let (key, loaded, h2) = >>=-eq-ok (load_key p pinned) _ h1 in
      let checked =
        not_relabelled
          (check_signature p key (text_field p "signature_hex" doc)
            (canonical_json (obj (manifest_body manifest))))
          h2 in
      sign_off p "release asset manifest" "release_asset_manifest.sig" pinned manifest doc
        (manifest_body manifest) key keys loaded checked

  check_metadata_ok :
      (verdict manifest metadata : Fields)
      → check_metadata p verdict manifest metadata ≡ ok tt
      → py_eq (get "proof_input_digest" manifest) (get "proof_input_digest" verdict) ≡ true
  unfolding check_metadata
  check_metadata_ok verdict manifest metadata h = ground arith

  metadata_ok :
      (files : Files) (manifest verdict : Fields)
      → verify_release_asset_metadata p files manifest verdict ≡ ok tt
      → py_eq (get "proof_input_digest" manifest) (get "proof_input_digest" verdict) ≡ true
  unfolding verify_release_asset_metadata check_metadata
  metadata_ok files manifest verdict h =
      let (ci_json, ci_read, h1) = >>=-eq-ok (read_json p files "ci_release_sha.json") _ h in
      let (remote_json, remote_read, h2) =
        >>=-eq-ok (read_json p files "remote_verification_result.json") _ h1 in
      let (metadata_json, metadata_read, h3) =
        >>=-eq-ok (read_json p files "workflow_metadata.json") _ h2 in
      let (ci, is_ci, h4) = >>=-eq-ok (expect_dict ci_json) _ h3 in
      let (same_ci, h5) =
        >>-eq-ok
          (raise_if (not (py_eq (get "proof_input_digest" ci) (get "proof_input_digest" verdict))) (
            runtime_error
              "CI attestation proof_input_digest does not match release asset proof inputs"))
          _ h4 in
      let (remote, is_remote, h6) = >>=-eq-ok (expect_dict remote_json) _ h5 in
      let (remote_ok, h7) = >>-eq-ok (check_remote_result p verdict remote) _ h6 in
      let (metadata, is_metadata, h8) = >>=-eq-ok (expect_dict metadata_json) _ h7 in
      let (metadata_checked, h9) = >>-eq-ok (check_metadata p verdict manifest metadata) _ h8 in
      check_metadata_ok verdict manifest metadata metadata_checked

-- The manifest lists the four files with the digests that they have, is signed under the pinned key,
-- and the proof inputs in the archive are a verified release of the digest that it names.
pub record AssetVerified (p : Platform) (settings : Settings) (files : Files) (out : Fields)
    : Type 0 where
  pub manifest : Fields
  pub manifest_read : read_json p files "release_asset_manifest.json" ≡ ok (obj manifest)
  pub signature_doc : Fields
  pub signed : Signed p (pinned_key_of settings) manifest signature_doc (manifest_body manifest)
  pub listed : Items
  pub listed_is : get "files" manifest ≡ arr listed
  pub hashes : HashesMatch p files listed
  pub complete : All (λ name. is_listed p name listed ≡ true) payload_files
  pub tar_bytes : List ℕ
  pub tar_read : read_bytes files "proof-input.tar" ≡ ok tar_bytes
  pub unpacked : Files
  pub unpacked_is : unpack_proof_inputs p tar_bytes ≡ ok unpacked
  pub ci_bytes : List ℕ
  pub ci_read : read_bytes files "ci_release_sha.json" ≡ ok ci_bytes
  pub release : Fields
  pub release_verified :
      ReleaseVerified p settings (insert "ci_release_sha.json" ci_bytes unpacked) release
  pub digest_is :
      py_eq (get "proof_input_digest" manifest) (get "proof_input_digest" release) ≡ true
  pub verdict_is : asset_result p release manifest ≡ out

module _ (p : Platform) (settings : Settings) where
  verify_asset_files_sound :
      (files : Files) (out : Fields)
      → verify_asset_files p settings files ≡ ok out
      → AssetVerified p settings files out
  unfolding verify_asset_files verify_unpacked
  verify_asset_files_sound files out h =
      let (manifest_json, manifest_read, h1) =
        >>=-eq-ok (read_json p files "release_asset_manifest.json") _ h in
      let (signature_json, signature_read, h2) =
        >>=-eq-ok (read_json p files "release_asset_manifest.sig") _ h1 in
      let (manifest, is_manifest, h3) = >>=-eq-ok (expect_dict manifest_json) _ h2 in
      let (valid, h4) = >>-eq-ok (validate_release_asset_manifest p manifest) _ h3 in
      let (doc, is_doc, h5) = >>=-eq-ok (expect_dict signature_json) _ h4 in
      let (signed, h6) = >>-eq-ok (verify_asset_signature p settings manifest doc) _ h5 in
      let (hashed, h7) = >>-eq-ok (verify_release_asset_hashes p files manifest) _ h6 in
      let (release, is_release, h8) = >>=-eq-ok (verify_unpacked p settings files) _ h7 in
      let (metadata, h9) = >>-eq-ok (verify_release_asset_metadata p files manifest release) _ h8 in
      let (tar_bytes, tar_read, u1) = >>=-eq-ok (read_bytes files "proof-input.tar") _ is_release in
      let (unpacked, unpacked_is, u2) = >>=-eq-ok (unpack_proof_inputs p tar_bytes) _ u1 in
      let (ci_bytes, ci_read, u3) = >>=-eq-ok (read_bytes files "ci_release_sha.json") _ u2 in
      let (listed, listed_is, hashes) = listed_ok p files manifest hashed in
      record {
        manifest = manifest;
        manifest_read =
            manifest_read ∙ ap ok (expect_dict-eq-ok manifest_json manifest is_manifest);
        signature_doc = doc;
        signed = verify_asset_signature_ok p settings manifest doc signed;
        listed = listed;
        listed_is = listed_is;
        hashes = hashes;
        complete = listed_files p manifest valid listed listed_is;
        tar_bytes = tar_bytes;
        tar_read = tar_read;
        unpacked = unpacked;
        unpacked_is = unpacked_is;
        ci_bytes = ci_bytes;
        ci_read = ci_read;
        release = release;
        release_verified =
            verify_release_dir_sound p settings (insert "ci_release_sha.json" ci_bytes unpacked)
              release u3;
        digest_is = metadata_ok p files manifest release metadata;
        verdict_is = ok-injective (asset_result p release manifest) out h9;
      }

  -- A release asset is accepted only if its signed manifest lists the four files with the digests that
  -- they have, and the proof inputs in their archive, with the attestation, are a verified release of
  -- the digest that the manifest names.
  pub verify_release_asset_dir_sound :
      (es : List AssetEntry) (out : Fields)
      → verify_release_asset_dir p settings es ≡ ok out
      → AssetVerified p settings (files_of es) out
  unfolding verify_release_asset_dir
  verify_release_asset_dir_sound es out h =
      let (present, h1) = >>-eq-ok (require_release_asset_files es) _ h in
      verify_asset_files_sound (files_of es) out h1
