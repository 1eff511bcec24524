-- ===== src/Release/Directory.antt =====
-- `verify_release_dir` of scripts/verify_release.py.
use agent_delegation_network.Json.{Fields, end, field, get, str}
use agent_delegation_network.Prelude.{Result, ok, ◌>>=◌, ◌>>◌}
use agent_delegation_network.Protocol.Messages.{expect_dict}
use agent_delegation_network.Release.Attestation.{check_attestation}
use agent_delegation_network.Release.Files.{Files, read_json, require_files, required_proof_files}
use agent_delegation_network.Release.Inputs.{verify_release_inputs}
use agent_delegation_network.Release.Platform.{Platform, Settings, repository_of}

module _ (p : Platform) where
  abbrev pub release_result : Fields → Fields
  release_result input = field "status" (str "OK") (
      field "build_commit" (get "build_commit" input) (
        field "build_config_id" (get "build_config_id" input)
          (field "proof_input_digest" (get "proof_input_digest" input) end)))

  unfoldable pub verify_release_dir : Settings → Files → Result Fields
  unfolding require_files verify_release_inputs read_json check_attestation get repository_of
  verify_release_dir settings files = do
    require_files files required_proof_files
    input ← verify_release_inputs p settings files
    manifest_json ← read_json p files "deployment_manifest.json"
    ci_json ← read_json p files "ci_release_sha.json"
    ci ← expect_dict ci_json
    manifest ← expect_dict manifest_json
    check_attestation p (repository_of settings) (get "proof_input_digest" input)
        (get "build_commit" manifest) ci
    ok (release_result input)
