-- ===== src/Release/Remote.antt =====
-- `GitHubActionsClient` and `verify_release_remote` of scripts/verify_release_remote.py.
use agent_delegation_network.Json.{Fields, Json, end, field, get, is_str, obj, or_else, str, truthy}
use agent_delegation_network.Json.Equality.{py_eq}
use agent_delegation_network.Prelude.{
  Exception, List, Option, Result, String, [], if◌then◌else◌, none, not, ok, raise_if, raised,
  runtime_error, some, ℕ, ◌&&◌, ◌==◌, ◌>>=◌, ◌>>◌, ◌||◌, ◌∷◌,
}
use agent_delegation_network.Protocol.Messages.{expect_dict}
use agent_delegation_network.Release.Archive.{verify_archive_contents}
use agent_delegation_network.Release.Attestation.{artifact_url_of}
use agent_delegation_network.Release.Directory.{verify_release_dir}
use agent_delegation_network.Release.Files.{Files, digest_hex, read_json}
use agent_delegation_network.Release.Manifest.{text_field}
use agent_delegation_network.Release.Platform.{Platform, Settings, py_str, repository_of}
use agent_delegation_network.ReplayLedger.Traces.{run}
use agent_delegation_network.Tee.Checks.{is_true}
use agent_delegation_network.Text.Characters.{same_char}
use agent_delegation_network.Text.Strings.{
  after_prefix, concat, concat_text, is_hex_text, strip_lower, strip_text,
}

-- The client: the address of the API, and `urlopen`, which returns a body or raises.
pub record Client : Type 0 where
  pub api_url : String
  pub request : String → Result (List ℕ)

-- `repository.split("/", 1)`
unfoldable pub split_slash : String → Option (String × String)
split_slash String.[] = none
split_slash (String.◌∷◌ x s) =
    let later = split_slash s in
    if same_char x "/"
    then some (String.[], s)
    else elim later [ none ↦ none | some (a, b) ↦ some (String.◌∷◌ x a, b) ]

abbrev repository_error : Exception
repository_error = runtime_error "repository must use owner/repo format"

unfoldable pub parse_repository : String → Result (String × String)
unfolding split_slash
parse_repository repository = elim (split_slash repository) [
  | none ↦ raised repository_error
  | some (owner, repo) ↦
      if owner == "" || repo == "" then raised repository_error else ok (owner, repo)
]

-- `text[len("sha256:"):]` where it starts so
unfoldable pub without_prefix : String → String
unfolding after_prefix
without_prefix s = elim (after_prefix "sha256:" s) [ none ↦ s | some rest ↦ rest ]

module _ (p : Platform) where
  unfoldable pub normalize_digest : Json → Result String
  unfolding strip_lower without_prefix is_hex_text py_str
  normalize_digest v =
      let t = without_prefix (strip_lower (py_str p (or_else (str "") v))) in
      if is_hex_text 64 t
      then ok t
      else raised (runtime_error "GitHub artifact digest must be sha256:<64-hex> or 64-hex")

  unfoldable pub require_equal : String → Json → Json → Result (Unit {0})
  unfolding py_str concat
  require_equal label actual expected = raise_if (not (py_str p actual == py_str p expected)) (
      runtime_error (
        concat
          (label ∷ " mismatch: expected " ∷ py_str p expected ∷ ", got " ∷ py_str p actual ∷ [])))

  -- `run.get("repository") or {}`, and its `full_name`
  unfoldable pub check_repository : String → String → Fields → Result (Unit {0})
  unfolding get is_str concat_text
  check_repository subject repository run = do
    d ← expect_dict (or_else (obj end) (get "repository" run))
    raise_if (not (is_str repository (get "full_name" d)))
        (runtime_error (concat_text subject " repository does not match expected repository"))

  unfoldable pub verify_run : Fields → Fields → String → Result (Unit {0})
  unfolding require_equal check_repository get py_eq
  verify_run ci run repository = do
    require_equal "workflow run id" (get "id" run) (get "workflow_run_id" ci)
    require_equal "workflow run head_sha" (get "head_sha" run) (get "sha" ci)
    require_equal "workflow run conclusion" (get "conclusion" run) (str "success")
    raise_if (not (py_eq (get "html_url" run) (get "workflow_run_url" ci)))
        (runtime_error "workflow run URL does not match CI attestation")
    check_repository "workflow run" repository run

  -- The end of `verify_tests_run`.
  unfoldable pub check_tests_run : Fields → Fields → String → Result (Unit {0})
  unfolding check_repository get py_eq is_str
  check_tests_run ci run repository = do
    raise_if (not (py_eq (get "html_url" run) (get "tests_workflow_run_url" ci)))
        (runtime_error "Tests workflow URL does not match CI attestation")
    raise_if (not (is_str "Tests" (get "name" run)))
        (runtime_error "Tests workflow run name does not match required workflow")
    raise_if (not (is_str "push" (get "event" run)))
        (runtime_error "Tests workflow event must be push")
    raise_if (not (is_str "main" (get "head_branch" run)))
        (runtime_error "Tests workflow head_branch must be main")
    check_repository "Tests workflow" repository run

  unfoldable pub verify_tests_run : Fields → Fields → String → Result (Unit {0})
  unfolding require_equal check_tests_run get
  verify_tests_run ci run repository = do
    require_equal "Tests workflow run id" (get "id" run) (get "tests_workflow_run_id" ci)
    require_equal "Tests workflow head_sha" (get "head_sha" run) (get "tests_workflow_head_sha" ci)
    require_equal "Tests workflow conclusion" (get "conclusion" run) (str "success")
    require_equal "Tests workflow event" (get "event" run) (get "tests_workflow_event" ci)
    require_equal "Tests workflow head_branch" (get "head_branch" run)
        (get "tests_workflow_head_branch" ci)
    check_tests_run ci run repository

  abbrev pub other_run_error : Exception
  other_run_error = runtime_error "GitHub artifact does not belong to the declared workflow run"

  unfoldable pub check_artifact_run : Fields → Fields → String → String → Result (Unit {0})
  unfolding require_equal get artifact_url_of is_str py_str
  check_artifact_run ci artifact repository run_id = do
    require_equal "artifact id" (get "id" artifact) (get "artifact_id" ci)
    require_equal "artifact name" (get "name" artifact) (get "artifact_name" ci)
    run ← expect_dict (or_else (obj end) (get "workflow_run" artifact))
    raise_if (truthy (obj run) && not (text_field p "id" run == run_id)) other_run_error
    raise_if
        (not (
          is_str (artifact_url_of repository run_id (py_str p (get "artifact_id" ci)))
            (get "artifact_url" ci)))
        (runtime_error
          "CI release evidence artifact_url does not match expected GitHub artifact URL")
    raise_if (is_true (get "expired" artifact)) (runtime_error "GitHub artifact has expired")

  unfoldable pub verify_artifact : Fields → Fields → String → String → Result String
  unfolding check_artifact_run normalize_digest get
  verify_artifact ci artifact repository run_id = do
    check_artifact_run ci artifact repository run_id
    remote_digest ← normalize_digest (get "digest" artifact)
    attested_digest ← normalize_digest (get "artifact_digest" ci)
    raise_if (not (remote_digest == attested_digest))
        (runtime_error "GitHub artifact metadata digest does not match CI attestation")
    ok attested_digest

  module _ (client : Client) where
    -- `GitHubActionsClient._json`
    unfoldable pub fetch_json : String → Result Json
    unfolding concat_text
    fetch_json path = client.request (concat_text client.api_url path) >>= p.loads

    unfoldable pub get_workflow_run : String → String → Result Json
    unfolding parse_repository fetch_json concat
    get_workflow_run repository run_id = do
      (owner, repo) ← parse_repository repository
      fetch_json (concat ("/repos/" ∷ owner ∷ "/" ∷ repo ∷ "/actions/runs/" ∷ run_id ∷ []))

    unfoldable pub get_workflow_run_artifact : String → String → String → Result Fields
    unfolding parse_repository fetch_json concat get truthy py_str
    get_workflow_run_artifact repository run_id artifact_id = do
      (owner, repo) ← parse_repository repository
      v ←
          fetch_json
            (concat ("/repos/" ∷ owner ∷ "/" ∷ repo ∷ "/actions/artifacts/" ∷ artifact_id ∷ []))
      artifact ← expect_dict v
      run ← expect_dict (or_else (obj end) (get "workflow_run" artifact))
      raise_if (not (text_field p "id" run == run_id)) other_run_error
      ok artifact

    unfoldable pub download_artifact_zip : Fields → Result (List ℕ)
    unfolding strip_text py_str
    download_artifact_zip artifact =
        let url = strip_text (text_field p "archive_download_url" artifact) in
        if url == ""
        then raised (runtime_error "GitHub artifact is missing archive_download_url")
        else client.request url

    abbrev pub remote_result : Fields → Fields → String → Fields
    remote_result local ci artifact_digest = field "status" (str "REMOTE_OK") (
        field "build_commit" (get "build_commit" local) (
          field "build_config_id" (get "build_config_id" local) (
            field "workflow_run_id" (str (text_field p "workflow_run_id" ci)) (
              field "tests_workflow_run_id" (str (text_field p "tests_workflow_run_id" ci)) (
                field "artifact_id" (str (text_field p "artifact_id" ci)) (
                  field "artifact_digest" (str artifact_digest)
                    (field "proof_input_digest" (get "proof_input_digest" local) end)))))))

    -- The runs and the artifact, as GitHub tells of them.
    unfoldable pub verify_runs : String → Fields → Result (Unit {0})
    unfolding get_workflow_run verify_run verify_tests_run
    verify_runs repository ci = do
      run_json ← get_workflow_run repository (text_field p "workflow_run_id" ci)
      run ← expect_dict run_json
      verify_run ci run repository
      tests_json ← get_workflow_run repository (text_field p "tests_workflow_run_id" ci)
      tests_run ← expect_dict tests_json
      verify_tests_run ci tests_run repository

    -- The downloaded archive, and its digest.
    unfoldable pub fetch_artifact : String → Fields → Result (List ℕ × String)
    unfolding get_workflow_run_artifact verify_artifact download_artifact_zip digest_hex
    fetch_artifact repository ci = do
      artifact ←
          get_workflow_run_artifact repository (text_field p "workflow_run_id" ci)
            (text_field p "artifact_id" ci)
      attested_digest ← verify_artifact ci artifact repository (text_field p "workflow_run_id" ci)
      zip_bytes ← download_artifact_zip artifact
      raise_if (not (digest_hex p zip_bytes == attested_digest))
          (runtime_error "downloaded artifact digest does not match GitHub artifact metadata")
      ok (zip_bytes, digest_hex p zip_bytes)

    -- `expected_repository or os.environ.get(…).strip()`
    abbrev pub chosen_repository : Settings → Option String → String
    chosen_repository settings none = repository_of settings
    chosen_repository settings (some r) = if r == "" then repository_of settings else r

    unfoldable pub verify_release_remote : Settings → Files → Option String → Result Fields
    unfolding verify_release_dir read_json is_str get verify_runs fetch_artifact
        verify_archive_contents py_str
    verify_release_remote settings files expected_repository = do
      local ← verify_release_dir p settings files
      ci_json ← read_json p files "ci_release_sha.json"
      ci ← expect_dict ci_json
      raise_if (not (is_str (chosen_repository settings expected_repository) (get "repository" ci)))
          (runtime_error "CI release evidence repository does not match expected repository")
      verify_runs (chosen_repository settings expected_repository) ci
      (zip_bytes, artifact_digest) ←
          fetch_artifact (chosen_repository settings expected_repository) ci
      verify_archive_contents p files zip_bytes (py_str p (get "proof_input_digest" ci))
      ok (remote_result local ci artifact_digest)
