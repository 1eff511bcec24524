-- ===== src/Tests/ReleaseSamples.antt =====
-- A small proof directory, what GitHub tells of it, and a release asset.
use Prim.Native.Char.{code}
use agent_delegation_network.Json.{
  Fields, Json, arr, bool, cons, end, field, nil, null, num, obj, str,
}
use agent_delegation_network.Prelude.{
  List, Result, String, [], false, if◌then◌else◌, leb, ok, some, suc, true, zero, ℕ, ◌&&◌, ◌==◌,
  ◌∷◌,
}
use agent_delegation_network.Release.Asset.Listing.{AssetEntry}
use agent_delegation_network.Release.Asset.Verdict.{asset_result}
use agent_delegation_network.Release.Attestation.{
  expected_attestation_phase, expected_attested_workflow, expected_ci_generator,
}
use agent_delegation_network.Release.Files.{Files, proof_input_files, str_items}
use agent_delegation_network.Release.Platform.{Member, Platform, Settings}
use agent_delegation_network.Release.Remote.{Client, remote_result}
use agent_delegation_network.Tests.Samples.{sample_crypto}

abbrev pub hex_64 : String
hex_64 = "0123456789abcdef0123456789abcdef0123456789abcdef0123456789abcdef"

abbrev pub commit_40 : String
commit_40 = "0123456789abcdef0123456789abcdef01234567"

abbrev pub sample_manifest : Fields
sample_manifest = field "schema_version" (str "adn-release-proof-v1") (
    field "contract_tail" (str "adn") (
      field "contract_version" (str "0.10.2") (
        field "build_commit" (str commit_40) (
          field "rustc_version" (str "1.80") (
            field "trusted_issuer" (str "issuer") (
              field "tenant_did" (str "did:t3n") (
                field "build_config_id" (str "build-1") (
                  field "local_wasm_sha256" (str hex_64)
                    (field "registration_status" (str "registered") more_manifest)))))))))
  where
    more_manifest : Fields
    more_manifest = field "registered_at" (str "now") (
        field "remote_contract_id" (num 7) (
          field "raw_registration_response_digest" (str hex_64) (
            field "raw_registration_response_path" (str "registration_response.json") (
              field "first_invocation_digest" (str hex_64) (
                field "first_invocation_path" (str "invocation_receipt.json") (
                  field "t3n_evidence_digest" (str hex_64) (
                    field "t3n_evidence_path" (str "t3n_evidence.json") (
                      field "operator_public_key" (str "PUB")
                        (field "manifest_digest" (str hex_64) end)))))))))

abbrev pub sample_signature : Fields
sample_signature =
    field "algorithm" (str "ed25519")
      (field "public_key_hex" (str " pub") (field "signature_hex" (str "sig") end))

abbrev pub sample_invocation : Fields
sample_invocation = field "build_config_id" (str "build-1") end

abbrev pub sample_replay : Fields
sample_replay = field "build_config_id" (str "build-1") (
    field "request_replay_rejected" (bool true) (
      field "result_replay_rejected" (bool true)
        (field "ledger_persisted_across_restart" (bool true) end)))

abbrev pub sample_ci : Fields
sample_ci = field "evidence_source" (str "github_actions") (
    field "generated_by" (str expected_ci_generator) (
      field "attested_workflow" (str expected_attested_workflow) (
        field "attestation_phase" (str expected_attestation_phase) (
          field "repository" (str "o/r") (
            field "sha" (str commit_40) (
              field "workflow_run_id" (num 5) (
                field "workflow_run_url" (str "https://github.com/o/r/actions/runs/5") (
                  field "workflow_conclusion" (str "success")
                    (field "tests_workflow_run_id" (str "6") more_ci)))))))))
  where
    more_ci : Fields
    more_ci = field "tests_workflow_run_url" (str "https://github.com/o/r/actions/runs/6") (
        field "tests_workflow_conclusion" (str "success") (
          field "tests_workflow_head_sha" (str commit_40) (
            field "tests_workflow_event" (str "push") (
              field "tests_workflow_head_branch" (str "main") (
                field "artifact_id" (num 12) (
                  field "artifact_name" (str "proof") (
                    field "artifact_url" (str "https://github.com/o/r/actions/runs/5/artifacts/12")
                      (field "artifact_digest" (str hex_64) (
                        field "proof_input_digest" (str hex_64) (
                          field "proof_input_files" (arr (str_items proof_input_files))
                            (field "retrieved_at" (str "now") end)))))))))))

-- What GitHub tells of the two runs and of the artifact.
abbrev pub home : Fields
home = field "full_name" (str "o/r") end

abbrev pub sample_run : Fields
sample_run = field "id" (num 5) (
    field "head_sha" (str commit_40) (
      field "conclusion" (str "success") (
        field "html_url" (str "https://github.com/o/r/actions/runs/5")
          (field "repository" (obj home) end))))

abbrev pub sample_tests_run : Fields
sample_tests_run = field "id" (num 6) (
    field "head_sha" (str commit_40) (
      field "conclusion" (str "success") (
        field "event" (str "push") (
          field "head_branch" (str "main") (
            field "name" (str "Tests") (
              field "html_url" (str "https://github.com/o/r/actions/runs/6")
                (field "repository" (obj home) end)))))))

abbrev pub sample_artifact : Fields
sample_artifact = field "id" (num 12) (
    field "name" (str "proof") (
      field "workflow_run" (obj (field "id" (num 5) end)) (
        field "digest"
          (str ("sha256:0123456789abcdef0123456789abcdef0123456789abcdef0123456789abcdef"))
          (field "archive_download_url" (str "zip") end))))

-- The manifest of a release asset, and the documents beside it.
abbrev pub listed_file : String → Json
listed_file name = obj (field "path" (str name) (field "sha256" (str hex_64) end))

abbrev pub asset_manifest : Fields
asset_manifest = field "schema_version" (str "adn-release-asset-manifest-v1") (
    field "repository" (str "o/r") (
      field "sha" (str commit_40) (
        field "release_tag" (str "v1") (
          field "operator_public_key" (str "pub") (
            field "proof_input_digest" (str hex_64) (
              field "remote_verification_status" (str "REMOTE_OK") (
                field "files"
                  (arr (
                    cons (listed_file "proof-input.tar") (
                      cons (listed_file "ci_release_sha.json") (
                        cons (listed_file "remote_verification_result.json")
                          (cons (listed_file "workflow_metadata.json") nil)))))
                  (field "created_at" (str "now") (field "manifest_digest" (str hex_64) end)))))))))

abbrev pub sample_remote_result : Fields
sample_remote_result =
    field "status" (str "REMOTE_OK") (field "proof_input_digest" (str hex_64) end)

abbrev pub sample_metadata : Fields
sample_metadata = field "remote_verification_status" (str "REMOTE_OK") (
    field "proof_input_digest" (str hex_64) (
      field "proof_input_archive_sha256" (str hex_64) (
        field "ci_attestation_sha256" (str hex_64)
          (field "remote_verification_result_sha256" (str hex_64) end))))

-- The assets of a published release, in the order of their files.
abbrev pub sample_release : Fields
sample_release = field "tag_name" (str "v1") (
    field "target_commitish" (str commit_40) (
      field "assets"
        (arr (
          cons (fetched_file "proof-input.tar" "tar") (
            cons (fetched_file "ci_release_sha.json" "ci") (
              cons (fetched_file "remote_verification_result.json" "result") (
                cons (fetched_file "workflow_metadata.json" "metadata") (
                  cons (fetched_file "release_asset_manifest.json" "manifest")
                    (cons (fetched_file "release_asset_manifest.sig" "signature") nil)))))))
        end))
  where
    fetched_file : String → String → Json
    fetched_file name url = obj (field "name" (str name) (field "url" (str url) end))

-- The bytes of a file are the number of its document.
unfoldable pub nth : ℕ → List Fields → Json
nth n [] = null
nth zero (d ∷ ds) = obj d
nth (suc n) (d ∷ ds) = nth n ds

unfoldable pub sample_loads : List ℕ → Result Json
unfolding nth
sample_loads [] = ok null
sample_loads (n ∷ _) = ok (
    nth n (
      sample_manifest ∷ sample_signature ∷ sample_invocation ∷ sample_replay ∷ sample_ci
      ∷ sample_run ∷ sample_tests_run ∷ sample_artifact ∷ asset_manifest ∷ sample_remote_result
      ∷ sample_metadata ∷ sample_release ∷ []))

abbrev pub sample_member : String → ℕ → Member
sample_member name n = record { name = name; is_file = true; content = some (n ∷ []) }

abbrev pub sample_members : List Member
sample_members =
    sample_member "proof/release/deployment_manifest.json" 0
    ∷ sample_member "proof/release/deployment_manifest.sig" 1
    ∷ sample_member "proof/release/registration_response.json" 99
    ∷ sample_member "proof/release/invocation_receipt.json" 2
    ∷ sample_member "proof/release/t3n_evidence.json" 99
    ∷ sample_member "proof/release/replay_restart_proof.json" 3
    ∷ []

abbrev pub sample_platform : Platform
sample_platform = record {
  crypto = record sample_crypto { sha256_hex = λ bytes. hex_64 };
  loads = sample_loads;
  repr = λ v. "";
  is_digit = λ s. true;
  is_decimal = λ x. leb 48 (code x) && leb (code x) 57;
  normpath = λ s. s;
  open_zip = λ bytes. some (("proof-input.tar", []) ∷ []);
  open_tar = λ bytes. some sample_members;
}

abbrev pub sample_settings : Settings
sample_settings = record { operator_key = some "pub"; repository = some "o/r" }

abbrev pub sample_files : Files
sample_files =
    ("deployment_manifest.json", 0 ∷ [])
    ∷ ("deployment_manifest.sig", 1 ∷ [])
    ∷ ("registration_response.json", 99 ∷ [])
    ∷ ("invocation_receipt.json", 2 ∷ [])
    ∷ ("t3n_evidence.json", 99 ∷ [])
    ∷ ("replay_restart_proof.json", 3 ∷ [])
    ∷ ("ci_release_sha.json", 4 ∷ [])
    ∷ []

abbrev pub sample_verdict : Fields
sample_verdict = field "status" (str "OK") (
    field "build_commit" (str commit_40)
      (field "build_config_id" (str "build-1") (field "proof_input_digest" (str hex_64) end)))

abbrev pub sample_client : Client
sample_client = record {
  api_url = "api";
  request = λ url.
      if url == "api/repos/o/r/actions/runs/5"
      then ok (5 ∷ [])
      else if url == "api/repos/o/r/actions/runs/6"
      then ok (6 ∷ [])
      else if url == "api/repos/o/r/actions/artifacts/12"
      then ok (7 ∷ [])
      else if url == "api/repos/o/r/releases/tags/v1"
      then ok (11 ∷ [])
      else if url == "ci"
      then ok (4 ∷ [])
      else if url == "result"
      then ok (9 ∷ [])
      else if url == "metadata"
      then ok (10 ∷ [])
      else if url == "manifest"
      then ok (8 ∷ [])
      else if url == "signature"
      then ok (1 ∷ [])
      else ok [];
}

abbrev pub remote_verdict : Fields
remote_verdict = remote_result sample_platform sample_client sample_verdict sample_ci hex_64

abbrev pub sample_entry : String → ℕ → AssetEntry
sample_entry name n = record { name = name; is_symlink = false; is_file = true; content = n ∷ [] }

abbrev pub sample_asset : List AssetEntry
sample_asset =
    sample_entry "proof-input.tar" 99
    ∷ sample_entry "ci_release_sha.json" 4
    ∷ sample_entry "remote_verification_result.json" 9
    ∷ sample_entry "workflow_metadata.json" 10
    ∷ sample_entry "release_asset_manifest.json" 8
    ∷ sample_entry "release_asset_manifest.sig" 1
    ∷ sample_entry ".gitkeep" 99
    ∷ []

abbrev pub asset_verdict : Fields
asset_verdict = asset_result sample_platform sample_verdict asset_manifest
