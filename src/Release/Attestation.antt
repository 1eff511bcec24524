-- ===== src/Release/Attestation.antt =====
-- The checks of the CI attestation in `verify_release_dir` of scripts/verify_release.py.
use agent_delegation_network.Json.{Fields, Json, arr, get, is_str}
use agent_delegation_network.Json.Equality.{py_eq}
use agent_delegation_network.Prelude.{
  Exception, List, Result, String, [], not, raise_if, runtime_error, ◌>>◌, ◌∷◌,
}
use agent_delegation_network.Release.Files.{proof_input_files, str_items}
use agent_delegation_network.Release.Manifest.{require_fields, text_field}
use agent_delegation_network.Release.Platform.{Platform, py_str}
use agent_delegation_network.ReplayLedger.Traces.{run}
use agent_delegation_network.Text.Strings.{concat, concat_text, is_hex_text, starts_with}

abbrev pub required_ci_fields : List String
required_ci_fields =
    "evidence_source" ∷ "generated_by" ∷ "attested_workflow" ∷ "attestation_phase" ∷ "repository"
    ∷ "sha" ∷ "workflow_run_id" ∷ "workflow_run_url" ∷ "workflow_conclusion"
    ∷ "tests_workflow_run_id" ∷ "tests_workflow_run_url" ∷ "tests_workflow_conclusion"
    ∷ "tests_workflow_head_sha" ∷ "tests_workflow_event" ∷ "tests_workflow_head_branch"
    ∷ "artifact_id" ∷ "artifact_name" ∷ "artifact_url" ∷ "artifact_digest" ∷ "proof_input_digest"
    ∷ "proof_input_files" ∷ "retrieved_at" ∷ []

abbrev pub expected_ci_generator : String
expected_ci_generator = ".github/workflows/release-proof-attest.yml"

abbrev pub expected_attested_workflow : String
expected_attested_workflow = ".github/workflows/release-proof-input.yml"

abbrev pub expected_attestation_phase : String
expected_attestation_phase = "post_verify_completed_run"

abbrev ci_error : String → Exception
ci_error s = runtime_error (concat_text "CI release evidence " s)

-- The start of the address of every run of the repository.
unfoldable pub run_url_prefix : String → String
unfolding concat
run_url_prefix repository = concat ("https://github.com/" ∷ repository ∷ "/actions/runs/" ∷ [])

unfoldable pub artifact_url_of : String → String → String → String
unfolding concat
artifact_url_of repository run artifact =
    concat
      ("https://github.com/" ∷ repository ∷ "/actions/runs/" ∷ run ∷ "/artifacts/" ∷ artifact ∷ [])

unfoldable pub check_origin : String → Fields → Result (Unit {0})
unfolding is_str get
check_origin repository ci = do
  raise_if (not (is_str "github_actions" (get "evidence_source" ci)))
      (runtime_error "CI release evidence must be generated by GitHub Actions")
  raise_if (not (is_str expected_ci_generator (get "generated_by" ci)))
      (ci_error (concat_text "generated_by must be " expected_ci_generator))
  raise_if (not (is_str expected_attested_workflow (get "attested_workflow" ci)))
      (ci_error (concat_text "attested_workflow must be " expected_attested_workflow))
  raise_if (not (is_str expected_attestation_phase (get "attestation_phase" ci)))
      (ci_error (concat_text "attestation_phase must be " expected_attestation_phase))
  raise_if (not (is_str repository (get "repository" ci)))
      (ci_error "repository does not match expected repository")

module _ (p : Platform) where
  unfoldable pub check_artifact : String → Fields → Result (Unit {0})
  unfolding starts_with run_url_prefix artifact_url_of is_str get is_hex_text
  check_artifact repository ci = do
    raise_if (not (starts_with (run_url_prefix repository) (text_field p "workflow_run_url" ci)))
        (ci_error "workflow_run_url does not match expected repository")
    raise_if (not (p.is_digit (text_field p "artifact_id" ci)))
        (ci_error "artifact_id must be the uploaded GitHub artifact ID")
    raise_if
        (not (
          is_str
            (artifact_url_of repository (py_str p (get "workflow_run_id" ci))
              (py_str p (get "artifact_id" ci)))
            (get "artifact_url" ci)))
        (ci_error "artifact_url does not match expected GitHub artifact URL")
    raise_if (not (is_hex_text 64 (text_field p "artifact_digest" ci)))
        (ci_error "artifact_digest must be the uploaded artifact SHA-256 digest")

  -- `digest'` and `commit` are the digest of the proof inputs and the commit of the manifest.
  unfoldable pub check_subject : Json → Json → Fields → Result (Unit {0})
  unfolding py_eq is_str get
  check_subject digest' commit ci = do
    raise_if (not (py_eq (get "proof_input_files" ci) (arr (str_items proof_input_files))))
        (ci_error "proof_input_files do not match verifier input set")
    raise_if (not (py_eq (get "proof_input_digest" ci) digest'))
        (ci_error "proof input digest does not match retained proof inputs")
    raise_if (not (is_str "success" (get "workflow_conclusion" ci)))
        (runtime_error "CI status is not successful for release SHA")
    raise_if (not (py_eq (get "sha" ci) commit))
        (runtime_error "release SHA does not match manifest build_commit")

  unfoldable pub check_tests : String → Json → Fields → Result (Unit {0})
  unfolding starts_with run_url_prefix py_eq is_str get
  check_tests repository commit ci = do
    raise_if
        (not (starts_with (run_url_prefix repository) (text_field p "tests_workflow_run_url" ci)))
        (runtime_error "Tests workflow URL does not match expected repository")
    raise_if (not (p.is_digit (text_field p "tests_workflow_run_id" ci)))
        (runtime_error "Tests workflow run ID must be the uploaded GitHub workflow run ID")
    raise_if (not (is_str "success" (get "tests_workflow_conclusion" ci)))
        (runtime_error "Tests workflow conclusion is not successful for release SHA")
    raise_if (not (py_eq (get "tests_workflow_head_sha" ci) commit))
        (runtime_error "Tests workflow SHA does not match manifest build_commit")
    raise_if (not (py_eq (get "tests_workflow_head_sha" ci) (get "sha" ci)))
        (runtime_error "Tests workflow SHA does not match release SHA")
    raise_if (not (is_str "push" (get "tests_workflow_event" ci)))
        (runtime_error "Tests workflow event must be push")
    raise_if (not (is_str "main" (get "tests_workflow_head_branch" ci)))
        (runtime_error "Tests workflow head_branch must be main")

  unfoldable pub check_attestation : String → Json → Json → Fields → Result (Unit {0})
  unfolding check_origin check_artifact check_subject check_tests require_fields
  check_attestation repository digest' commit ci = do
    require_fields "CI release evidence" ci required_ci_fields
    check_origin repository ci
    check_artifact repository ci
    check_subject digest' commit ci
    check_tests repository commit ci
