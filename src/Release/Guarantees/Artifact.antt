-- ===== src/Release/Guarantees/Artifact.antt =====
-- What is known of the artifact that scripts/verify_release_remote.py downloads.
-- The metadata of the artifact have the attested id, belong to the attested run, and do not say that
-- it has expired.
use agent_delegation_network.Json.{Fields, end, get, obj, or_else, truthy}
use agent_delegation_network.Prelude.{
  >>-eq-ok, >>=-eq-ok, List, String, [], ap, arith, eq_iff, false, not, ok, ok-injective, raise_if,
  runtime_error, subst, sym, ℕ, ◌&&◌, ◌==◌, ◌∙◌, ◌∷◌, ◌≡◌,
}
use agent_delegation_network.Protocol.Messages.{expect_dict}
use agent_delegation_network.Release.Files.{digest_hex}
use agent_delegation_network.Release.Guarantees.Runs.{require_equal_ok}
use agent_delegation_network.Release.Manifest.{text_field}
use agent_delegation_network.Release.Platform.{Platform, py_str}
use agent_delegation_network.Release.Remote.{
  Client, check_artifact_run, download_artifact_zip, fetch_artifact, fetch_json,
  get_workflow_run_artifact, normalize_digest, other_run_error, parse_repository, require_equal,
  verify_artifact,
}
use agent_delegation_network.Tee.Checks.{is_true}
use agent_delegation_network.Text.Strings.{concat, strip_text}
use agent_delegation_network.Verifier.Guarantees.{expect_dict-eq-ok}

pub record ArtifactChecked (p : Platform) (ci artifact : Fields) : Type 0 where
  pub same_id : py_str p (get "id" artifact) ≡ py_str p (get "artifact_id" ci)
  pub home : Fields
  pub home_is : or_else (obj end) (get "workflow_run" artifact) ≡ obj home
  pub of_run : text_field p "id" home ≡ text_field p "workflow_run_id" ci
  pub unexpired : is_true (get "expired" artifact) ≡ false

-- The artifact that the attestation names, and the archive that the client gets for its address.
pub record ArtifactVerified (p : Platform) (client : Client) (repository : String) (ci : Fields)
    (zip_bytes : List ℕ) : Type 0 where
  pub artifact : Fields
  pub fetched :
      get_workflow_run_artifact p client repository
        (text_field p "workflow_run_id" ci)
        (text_field p "artifact_id" ci)
      ≡ ok artifact
  pub checked : ArtifactChecked p ci artifact
  pub same_digest :
      normalize_digest p (get "digest" artifact) ≡ normalize_digest p (get "artifact_digest" ci)
  pub downloaded :
      client.request (strip_text (text_field p "archive_download_url" artifact)) ≡ ok zip_bytes
  pub digest_is : normalize_digest p (get "artifact_digest" ci) ≡ ok (digest_hex p zip_bytes)

module _ (p : Platform) (client : Client) where
  -- Of the run in the metadata that were fetched.
  fetched_home :
      (repository run_id artifact_id : String) (artifact : Fields)
      → get_workflow_run_artifact p client repository run_id artifact_id ≡ ok artifact
      → (home : Fields) × (or_else (obj end) (get "workflow_run" artifact) ≡ obj home)
        × (text_field p "id" home ≡ run_id)
  unfolding get_workflow_run_artifact
  fetched_home repository run_id artifact_id artifact h =
      let ((owner, repo), is_parsed, h1) = >>=-eq-ok (parse_repository repository) _ h in
      let path =
        concat ("/repos/" ∷ owner ∷ "/" ∷ repo ∷ "/actions/artifacts/" ∷ artifact_id ∷ []) in
      let (v, is_v, h2) = >>=-eq-ok (fetch_json p client path) _ h1 in
      let (a, is_a, h3) = >>=-eq-ok (expect_dict v) _ h2 in
      let (home, is_home, h4) =
        >>=-eq-ok (expect_dict (or_else (obj end) (get "workflow_run" a))) _ h3 in
      let (same, e) =
        >>-eq-ok (raise_if (not (text_field p "id" home == run_id)) (other_run_error p)) (ok a)
          h4 in
      let same_artifact = ok-injective a artifact e in
      (
        home,
        subst (λ d. or_else (obj end) (get "workflow_run" d) ≡ obj home) same_artifact
            (expect_dict-eq-ok (or_else (obj end) (get "workflow_run" a)) home is_home),
        ground (arith, eq_iff (text_field p "id" home) run_id),
      )

  check_artifact_run_ok :
      (ci artifact : Fields) (repository run_id : String)
      → check_artifact_run p ci artifact repository run_id ≡ ok tt
      → (py_str p (get "id" artifact) ≡ py_str p (get "artifact_id" ci))
        × (is_true (get "expired" artifact) ≡ false)
  unfolding check_artifact_run py_str
  check_artifact_run_ok ci artifact repository run_id h =
      let (same_id, h1) =
        >>-eq-ok (require_equal p "artifact id" (get "id" artifact) (get "artifact_id" ci)) _ h in
      let (same_name, h2) =
        >>-eq-ok (require_equal p "artifact name" (get "name" artifact) (get "artifact_name" ci)) _
          h1 in
      let (home, is_home, h3) =
        >>=-eq-ok (expect_dict (or_else (obj end) (get "workflow_run" artifact))) _ h2 in
      let (of_run, h4) =
        >>-eq-ok
          (raise_if (truthy (obj home) && not (text_field p "id" home == run_id))
            (other_run_error p))
          _ h3 in
      (
        require_equal_ok p "artifact id" (get "id" artifact) (get "artifact_id" ci) same_id,
        ground arith,
      )

  verify_artifact_ok :
      (ci artifact : Fields) (repository run_id d : String)
      → verify_artifact p ci artifact repository run_id ≡ ok d
      → (check_artifact_run p ci artifact repository run_id ≡ ok tt)
        × (normalize_digest p (get "digest" artifact)
            ≡ normalize_digest p (get "artifact_digest" ci))
        × (normalize_digest p (get "artifact_digest" ci) ≡ ok d)
  unfolding verify_artifact
  verify_artifact_ok ci artifact repository run_id d h =
      let (checked, h1) = >>-eq-ok (check_artifact_run p ci artifact repository run_id) _ h in
      let (remote, is_remote, h2) = >>=-eq-ok (normalize_digest p (get "digest" artifact)) _ h1 in
      let (attested, is_attested, h3) =
        >>=-eq-ok (normalize_digest p (get "artifact_digest" ci)) _ h2 in
      let (same, e) =
        >>-eq-ok
          (raise_if (not (remote == attested))
            (runtime_error "GitHub artifact metadata digest does not match CI attestation"))
          (ok attested) h3 in
      let equal : remote ≡ attested = ground (arith, eq_iff remote attested) in
      (checked, is_remote ∙ ap ok equal ∙ sym is_attested, is_attested ∙ e)

  download_artifact_zip_ok :
      (artifact : Fields) (b : List ℕ)
      → download_artifact_zip p client artifact ≡ ok b
      → client.request (strip_text (text_field p "archive_download_url" artifact)) ≡ ok b
  unfolding download_artifact_zip
  download_artifact_zip_ok artifact b h = ground arith

  pub fetch_artifact_ok :
      (repository : String) (ci : Fields) (zip_bytes : List ℕ) (d : String)
      → fetch_artifact p client repository ci ≡ ok (zip_bytes, d)
      → ArtifactVerified p client repository ci zip_bytes
  unfolding fetch_artifact
  fetch_artifact_ok repository ci zip_bytes d h =
      let run_id = text_field p "workflow_run_id" ci in
      let (artifact, is_artifact, h1) =
        >>=-eq-ok
          (get_workflow_run_artifact p client repository run_id (text_field p "artifact_id" ci)) _
          h in
      let (attested, is_attested, h2) =
        >>=-eq-ok (verify_artifact p ci artifact repository run_id) _ h1 in
      let (b, is_b, h3) = >>=-eq-ok (download_artifact_zip p client artifact) _ h2 in
      let (same, e) =
        >>-eq-ok
          (raise_if (not (digest_hex p b == attested))
            (runtime_error "downloaded artifact digest does not match GitHub artifact metadata"))
          (ok (b, digest_hex p b)) h3 in
      let same_bytes = ap (λ r. r.0) (ok-injective (b, digest_hex p b) (zip_bytes, d) e) in
      let (of_run, same_digest, digest_is) =
        verify_artifact_ok ci artifact repository run_id attested is_attested in
      let (same_id, unexpired) = check_artifact_run_ok ci artifact repository run_id of_run in
      let (home, home_is, home_run) =
        fetched_home repository run_id (text_field p "artifact_id" ci) artifact is_artifact in
      record {
        artifact = artifact;
        fetched = is_artifact;
        checked = record {
          same_id = same_id;
          home = home;
          home_is = home_is;
          of_run = home_run;
          unexpired = unexpired;
        };
        same_digest = same_digest;
        downloaded = download_artifact_zip_ok artifact b is_b ∙ ap ok same_bytes;
        digest_is =
            digest_is ∙ ap ok (ground (arith, eq_iff (digest_hex p b) attested, same_bytes));
      }
