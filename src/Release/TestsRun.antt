-- ===== src/Release/TestsRun.antt =====
-- `find_successful_tests_workflow_run` of scripts/verify_release_remote.py.
use agent_delegation_network.Json.{Fields, Json, end, get, is_str, obj, or_else, str, truthy}
use agent_delegation_network.Prelude.{
  >>=-eq-ok, All, Bool, Bool-cases, List, Result, String, [], false, if◌then◌else◌, inl, inr, ok,
  ok-injective, raised, runtime_error, subst, true, ◌&&◌, ◌==◌, ◌>>=◌, ◌∷◌, ◌≡◌,
}
use agent_delegation_network.Protocol.Messages.{expect_dict}
use agent_delegation_network.Release.Canonical.{comes_first}
use agent_delegation_network.Release.Manifest.{text_field}
use agent_delegation_network.Release.Platform.{Platform, py_str}
use agent_delegation_network.ReplayLedger.Traces.{run}

module _ (p : Platform) where
  -- `str(run.get("run_started_at") or run.get("created_at") or "")`
  unfoldable pub started_at : Fields → String
  unfolding get py_str truthy
  started_at run =
      py_str p (or_else (or_else (str "") (get "created_at" run)) (get "run_started_at" run))

  unfoldable pub names_tests : String → Fields → Bool
  unfolding is_str get py_str
  names_tests head_sha run =
      is_str "Tests" (get "name" run)
      && is_str "success" (get "conclusion" run)
      && is_str "push" (get "event" run)
      && is_str "main" (get "head_branch" run)
      && text_field p "head_sha" run == head_sha

  -- The last condition looks into a dict, and only where the others hold.
  unfoldable pub is_tests_run : String → String → Fields → Result Bool
  unfolding names_tests get is_str
  is_tests_run repository head_sha run =
      if names_tests head_sha run
      then expect_dict (or_else (obj end) (get "repository" run))
        >>= (λ d. ok (is_str repository (get "full_name" d)))
      else ok false

  unfoldable pub matching_runs : String → String → List Json → Result (List Fields)
  unfolding is_tests_run
  matching_runs repository head_sha [] = ok []
  matching_runs repository head_sha (v ∷ vs) = do
    run ← expect_dict v
    b ← is_tests_run repository head_sha run
    rest ← matching_runs repository head_sha vs
    ok (if b then run ∷ rest else rest)

  -- The first of the runs that were started last, as a stable sort in reverse order has it.
  unfoldable pub latest_run : Fields → List Fields → Fields
  unfolding comes_first started_at
  latest_run best [] = best
  latest_run best (r ∷ rs) =
      let newer = latest_run r rs in
      let older = latest_run best rs in
      if comes_first (started_at best) (started_at r) then newer else older

  abbrev pub latest_of : List Fields → Result Fields
  latest_of [] = raised (runtime_error "no successful Tests workflow run found for release SHA")
  latest_of (r ∷ rs) = ok (latest_run r rs)

  unfoldable pub find_successful_tests_workflow_run : List Json → String → String → Result Fields
  unfolding matching_runs latest_run
  find_successful_tests_workflow_run runs repository head_sha =
      matching_runs repository head_sha runs >>= latest_of

  abbrev IsMatch : String → String → Fields → Type 0
  IsMatch repository head_sha run = is_tests_run repository head_sha run ≡ ok true

  matching_ok :
      (repository head_sha : String) (vs : List Json) (found : List Fields)
      → matching_runs repository head_sha vs ≡ ok found
      → All (IsMatch repository head_sha) found
  unfolding matching_runs
  matching_ok repository head_sha [] found h =
      subst (All (IsMatch repository head_sha)) (ok-injective [] found h) tt
  matching_ok repository head_sha (v ∷ vs) found h =
      let (run, is_run, h1) = >>=-eq-ok (expect_dict v) _ h in
      let (b, is_b, h2) = >>=-eq-ok (is_tests_run repository head_sha run) _ h1 in
      let (rest, is_rest, h3) = >>=-eq-ok (matching_runs repository head_sha vs) _ h2 in
      let others = matching_ok repository head_sha vs rest is_rest in
      subst (All (IsMatch repository head_sha))
        (ok-injective (if b then run ∷ rest else rest) found h3)
        (kept_or_not b run rest is_b others)
    where
      kept_or_not :
          (b : Bool) (run : Fields) (rest : List Fields)
          → is_tests_run repository head_sha run ≡ ok b
          → All (IsMatch repository head_sha) rest
          → All (IsMatch repository head_sha) (if b then run ∷ rest else rest)
      kept_or_not true run rest is_b others = (is_b, others)
      kept_or_not false run rest is_b others = others

  latest_run-matches :
      (P : Fields → Type 0) (best : Fields) (rs : List Fields)
      → P best
      → All P rs
      → P (latest_run best rs)
  unfolding latest_run
  latest_run-matches P best [] h _ = h
  latest_run-matches P best (r ∷ rs) h (hr, hrs) =
      elim (Bool-cases (comes_first (started_at best) (started_at r))) [
        | inl e ↦ rw e (latest_run-matches P r rs hr hrs)
        | inr e ↦ rw e (latest_run-matches P best rs h hrs)
      ]

  -- The run that is found is a successful run of the tests, of the commit in the repository.
  pub found_run_matches :
      (runs : List Json) (repository head_sha : String) (run : Fields)
      → find_successful_tests_workflow_run runs repository head_sha ≡ ok run
      → is_tests_run repository head_sha run ≡ ok true
  unfolding find_successful_tests_workflow_run
  found_run_matches runs repository head_sha run h =
      let (found, is_found, h1) = >>=-eq-ok (matching_runs repository head_sha runs) latest_of h in
      from_latest found run h1 (matching_ok repository head_sha runs found is_found)
    where
      from_latest :
          (found : List Fields) (run : Fields)
          → latest_of found ≡ ok run
          → All (IsMatch repository head_sha) found
          → is_tests_run repository head_sha run ≡ ok true
      from_latest [] run h all = absurd (cc)
      from_latest (r ∷ rs) run h (hr, hrs) =
          subst (IsMatch repository head_sha) (ok-injective (latest_run r rs) run h)
            (latest_run-matches (IsMatch repository head_sha) r rs hr hrs)
