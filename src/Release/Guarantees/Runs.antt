-- ===== src/Release/Guarantees/Runs.antt =====
-- What GitHub confirms of the runs of a release (scripts/verify_release_remote.py).
use agent_delegation_network.Json.{Fields, Json, end, get, is_str, obj, or_else, str}
use agent_delegation_network.Json.Equality.{is_str→eq, py_eq}
use agent_delegation_network.Prelude.{
  >>-eq-ok, >>=-eq-ok, Result, String, ap, arith, eq_iff, not, ok, raise_if, runtime_error, true,
  ◌∙◌, ◌≡◌,
}
use agent_delegation_network.Protocol.Messages.{expect_dict}
use agent_delegation_network.Release.Manifest.{text_field}
use agent_delegation_network.Release.Platform.{Platform, py_str}
use agent_delegation_network.Release.Remote.{
  Client, check_repository, check_tests_run, get_workflow_run, require_equal, verify_run,
  verify_runs, verify_tests_run,
}
use agent_delegation_network.Verifier.Guarantees.{expect_dict-eq-ok}

-- GitHub shows a run of the repository that the attestation names, for its commit, with success.
pub record RunVerified (p : Platform) (ci run : Fields) (repository : String) : Type 0 where
  pub same_id : py_str p (get "id" run) ≡ py_str p (get "workflow_run_id" ci)
  pub same_commit : py_str p (get "head_sha" run) ≡ py_str p (get "sha" ci)
  pub succeeded : py_str p (get "conclusion" run) ≡ "success"
  pub same_url : py_eq (get "html_url" run) (get "workflow_run_url" ci) ≡ true
  pub home : Fields
  pub home_is : or_else (obj end) (get "repository" run) ≡ obj home
  pub named : get "full_name" home ≡ str repository

-- GitHub shows a run of the tests on the main branch, for the commit that the attestation names.
pub record TestsVerified (p : Platform) (ci run : Fields) : Type 0 where
  pub same_id : py_str p (get "id" run) ≡ py_str p (get "tests_workflow_run_id" ci)
  pub same_commit : py_str p (get "head_sha" run) ≡ py_str p (get "tests_workflow_head_sha" ci)
  pub succeeded : py_str p (get "conclusion" run) ≡ "success"
  pub tests : get "name" run ≡ str "Tests"
  pub pushed : get "event" run ≡ str "push"
  pub branch : get "head_branch" run ≡ str "main"

module _ (p : Platform) where
  pub require_equal_ok :
      (label : String) (a b : Json) → require_equal p label a b ≡ ok tt → py_str p a ≡ py_str p b
  unfolding require_equal
  require_equal_ok label a b h = ground (arith, eq_iff (py_str p a) (py_str p b))

  check_repository_ok :
      (subject repository : String) (run : Fields)
      → check_repository p subject repository run ≡ ok tt
      → (home : Fields) × (or_else (obj end) (get "repository" run) ≡ obj home)
        × (get "full_name" home ≡ str repository)
  unfolding check_repository
  check_repository_ok subject repository run h =
      let v = or_else (obj end) (get "repository" run) in
      let (home, is_home, h1) = >>=-eq-ok (expect_dict v) _ h in
      (
        home,
        expect_dict-eq-ok v home is_home,
        is_str→eq repository (get "full_name" home) (ground arith),
      )

  verify_run_ok :
      (ci run : Fields) (repository : String)
      → verify_run p ci run repository ≡ ok tt
      → RunVerified p ci run repository
  unfolding verify_run py_str
  verify_run_ok ci run repository h =
      let (same_id, h1) =
        >>-eq-ok (require_equal p "workflow run id" (get "id" run) (get "workflow_run_id" ci)) _
          h in
      let (commit, h2) =
        >>-eq-ok (require_equal p "workflow run head_sha" (get "head_sha" run) (get "sha" ci)) _
          h1 in
      let (conclusion, h3) =
        >>-eq-ok (require_equal p "workflow run conclusion" (get "conclusion" run) (str "success"))
          _ h2 in
      let (url, h4) =
        >>-eq-ok
          (raise_if (not (py_eq (get "html_url" run) (get "workflow_run_url" ci)))
            (runtime_error "workflow run URL does not match CI attestation"))
          (check_repository p "workflow run" repository run) h3 in
      let (home, is_home, named) = check_repository_ok "workflow run" repository run h4 in
      record {
        same_id =
            require_equal_ok "workflow run id" (get "id" run) (get "workflow_run_id" ci) same_id;
        same_commit =
            require_equal_ok "workflow run head_sha" (get "head_sha" run) (get "sha" ci) commit;
        succeeded =
            require_equal_ok "workflow run conclusion" (get "conclusion" run) (str "success")
              conclusion;
        same_url = ground arith;
        home = home;
        home_is = is_home;
        named = named;
      }

  check_tests_run_ok :
      (ci run : Fields) (repository : String)
      → check_tests_run p ci run repository ≡ ok tt
      → (is_str "Tests" (get "name" run) ≡ true)
        × (is_str "push" (get "event" run) ≡ true)
        × (is_str "main" (get "head_branch" run) ≡ true)
  unfolding check_tests_run
  check_tests_run_ok ci run repository h = ground arith

  verify_tests_run_ok :
      (ci run : Fields) (repository : String)
      → verify_tests_run p ci run repository ≡ ok tt
      → TestsVerified p ci run
  unfolding verify_tests_run py_str
  verify_tests_run_ok ci run repository h =
      let (same_id, h1) =
        >>-eq-ok
          (require_equal p "Tests workflow run id" (get "id" run) (get "tests_workflow_run_id" ci))
          _ h in
      let (commit, h2) =
        >>-eq-ok
          (require_equal p "Tests workflow head_sha" (get "head_sha" run)
            (get "tests_workflow_head_sha" ci))
          _ h1 in
      let (conclusion, h3) =
        >>-eq-ok
          (require_equal p "Tests workflow conclusion" (get "conclusion" run) (str "success")) _
          h2 in
      let (event, h4) =
        >>-eq-ok
          (require_equal p "Tests workflow event" (get "event" run) (get "tests_workflow_event" ci))
          _ h3 in
      let (branch, h5) =
        >>-eq-ok
          (require_equal p "Tests workflow head_branch" (get "head_branch" run)
            (get "tests_workflow_head_branch" ci))
          _ h4 in
      let (named, pushed, main_branch) = check_tests_run_ok ci run repository h5 in
      record {
        same_id =
            require_equal_ok "Tests workflow run id" (get "id" run) (get "tests_workflow_run_id" ci)
              same_id;
        same_commit =
            require_equal_ok "Tests workflow head_sha" (get "head_sha" run)
              (get "tests_workflow_head_sha" ci) commit;
        succeeded =
            require_equal_ok "Tests workflow conclusion" (get "conclusion" run) (str "success")
              conclusion;
        tests = is_str→eq "Tests" (get "name" run) named;
        pushed = is_str→eq "push" (get "event" run) pushed;
        branch = is_str→eq "main" (get "head_branch" run) main_branch;
      }

module _ (p : Platform) (client : Client) where
  expect_run :
      (r : Result Json) (v : Json) (run : Fields)
      → r ≡ ok v
      → expect_dict v ≡ ok run
      → r ≡ ok (obj run)
  expect_run r v run fetched is_run = fetched ∙ ap ok (expect_dict-eq-ok v run is_run)

  pub record RunsVerified (repository : String) (ci : Fields) : Type 0 where
    pub run : Fields
    pub run_fetched :
        get_workflow_run p client repository (text_field p "workflow_run_id" ci) ≡ ok (obj run)
    pub run_verified : RunVerified p ci run repository
    pub tests_run : Fields
    pub tests_fetched :
        get_workflow_run p client repository (text_field p "tests_workflow_run_id" ci)
        ≡ ok (obj tests_run)
    pub tests_verified : TestsVerified p ci tests_run

  pub verify_runs_ok :
      (repository : String) (ci : Fields)
      → verify_runs p client repository ci ≡ ok tt
      → RunsVerified repository ci
  unfolding verify_runs
  verify_runs_ok repository ci h =
      let fetched = get_workflow_run p client repository (text_field p "workflow_run_id" ci) in
      let tests_fetched =
        get_workflow_run p client repository (text_field p "tests_workflow_run_id" ci) in
      let (v, is_v, h1) = >>=-eq-ok fetched _ h in
      let (run, is_run, h2) = >>=-eq-ok (expect_dict v) _ h1 in
      let (run_ok, h3) = >>-eq-ok (verify_run p ci run repository) _ h2 in
      let (w, is_w, h4) = >>=-eq-ok tests_fetched _ h3 in
      let (tests_run, is_tests, h5) = >>=-eq-ok (expect_dict w) _ h4 in
      record {
        run = run;
        run_fetched = expect_run fetched v run is_v is_run;
        run_verified = verify_run_ok p ci run repository run_ok;
        tests_run = tests_run;
        tests_fetched = expect_run tests_fetched w tests_run is_w is_tests;
        tests_verified = verify_tests_run_ok p ci tests_run repository h5;
      }
