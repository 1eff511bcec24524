-- ===== src/Release/Guarantees/Attestation.antt =====
-- What an accepted CI attestation says (scripts/verify_release.py).
use agent_delegation_network.Json.{Fields, Json, get, is_str, str}
use agent_delegation_network.Json.Equality.{is_str→eq, py_eq, py_eq-str}
use agent_delegation_network.Prelude.{>>-eq-ok, List, String, [], arith, ok, true, ◌≡◌}
use agent_delegation_network.Release.Attestation.{
  artifact_url_of, check_artifact, check_attestation, check_origin, check_subject, check_tests,
  required_ci_fields, run_url_prefix,
}
use agent_delegation_network.Release.Manifest.{missing_names, require_fields, text_field}
use agent_delegation_network.Release.Platform.{Platform, py_str}
use agent_delegation_network.Text.Strings.{is_hex_text, starts_with}

-- The attestation is of this repository, this digest and this commit, and the tests of that commit
-- have passed on the main branch.
pub record Attested (p : Platform) (repository digest' : String) (commit : Json) (ci : Fields)
    : Type 0 where
  pub named : missing_names required_ci_fields ci ≡ []
  pub repository_is : get "repository" ci ≡ str repository
  pub run_url : starts_with (run_url_prefix repository) (text_field p "workflow_run_url" ci) ≡ true
  pub artifact_url :
      get "artifact_url" ci
      ≡ str (
          artifact_url_of repository
            (py_str p (get "workflow_run_id" ci))
            (py_str p (get "artifact_id" ci)))
  pub artifact_digest : is_hex_text 64 (text_field p "artifact_digest" ci) ≡ true
  pub digest_is : get "proof_input_digest" ci ≡ str digest'
  pub concluded : get "workflow_conclusion" ci ≡ str "success"
  pub commit_is : py_eq (get "sha" ci) commit ≡ true
  pub tests_concluded : get "tests_workflow_conclusion" ci ≡ str "success"
  pub tests_commit : py_eq (get "tests_workflow_head_sha" ci) commit ≡ true
  pub tests_event : get "tests_workflow_event" ci ≡ str "push"
  pub tests_branch : get "tests_workflow_head_branch" ci ≡ str "main"

module _ (p : Platform) (repository digest' : String) (commit : Json) (ci : Fields) where
  is_field : (name s : String) → is_str s (get name ci) ≡ true → get name ci ≡ str s
  is_field name s h = is_str→eq s (get name ci) h

  origin_ok : check_origin repository ci ≡ ok tt → is_str repository (get "repository" ci) ≡ true
  unfolding check_origin
  origin_ok h = ground arith

  artifact_ok :
      check_artifact p repository ci ≡ ok tt
      → (starts_with (run_url_prefix repository) (text_field p "workflow_run_url" ci) ≡ true)
        × (is_str
              (artifact_url_of repository
                (py_str p (get "workflow_run_id" ci))
                (py_str p (get "artifact_id" ci)))
              (get "artifact_url" ci)
            ≡ true)
        × (is_hex_text 64 (text_field p "artifact_digest" ci) ≡ true)
  unfolding check_artifact
  artifact_ok h = ground arith

  subject_ok :
      check_subject p (str digest') commit ci ≡ ok tt
      → (py_eq (get "proof_input_digest" ci) (str digest') ≡ true)
        × (is_str "success" (get "workflow_conclusion" ci) ≡ true)
        × (py_eq (get "sha" ci) commit ≡ true)
  unfolding check_subject
  subject_ok h = ground arith

  tests_ok :
      check_tests p repository commit ci ≡ ok tt
      → (is_str "success" (get "tests_workflow_conclusion" ci) ≡ true)
        × (py_eq (get "tests_workflow_head_sha" ci) commit ≡ true)
        × (is_str "push" (get "tests_workflow_event" ci) ≡ true)
        × (is_str "main" (get "tests_workflow_head_branch" ci) ≡ true)
  unfolding check_tests
  tests_ok h = ground arith

  fields_ok :
      (label : String) (names : List String)
      → require_fields label ci names ≡ ok tt
      → missing_names names ci ≡ []
  unfolding require_fields
  fields_ok label names h = ground arith

  pub check_attestation_ok :
      check_attestation p repository (str digest') commit ci ≡ ok tt
      → Attested p repository digest' commit ci
  unfolding check_attestation
  check_attestation_ok h =
      let (named, h1) = >>-eq-ok (require_fields "CI release evidence" ci required_ci_fields) _ h in
      let (origin, h2) = >>-eq-ok (check_origin repository ci) _ h1 in
      let (artifact, h3) = >>-eq-ok (check_artifact p repository ci) _ h2 in
      let (subject, tests) = >>-eq-ok (check_subject p (str digest') commit ci) _ h3 in
      let (url, artifact_url, hex) = artifact_ok artifact in
      let (same_digest, concluded, same_commit) = subject_ok subject in
      let (passed, tests_commit, event, branch) = tests_ok tests in
      record {
        named = fields_ok "CI release evidence" required_ci_fields named;
        repository_is = is_field "repository" repository (origin_ok origin);
        run_url = url;
        artifact_url = is_field "artifact_url" _ artifact_url;
        artifact_digest = hex;
        digest_is = py_eq-str (get "proof_input_digest" ci) digest' same_digest;
        concluded = is_field "workflow_conclusion" "success" concluded;
        commit_is = same_commit;
        tests_concluded = is_field "tests_workflow_conclusion" "success" passed;
        tests_commit = tests_commit;
        tests_event = is_field "tests_workflow_event" "push" event;
        tests_branch = is_field "tests_workflow_head_branch" "main" branch;
      }
