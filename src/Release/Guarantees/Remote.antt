-- ===== src/Release/Guarantees/Remote.antt =====
-- What a remotely verified release guarantees (scripts/verify_release_remote.py).
use agent_delegation_network.Json.{Fields, get, is_str, obj, str}
use agent_delegation_network.Json.Equality.{is_str→eq}
use agent_delegation_network.Prelude.{
  >>-eq-ok, >>=-eq-ok, List, Option, Result, String, arith, not, ok, ok-injective, raise_if,
  runtime_error, subst, sym, ℕ, ◌>>=◌, ◌>>◌, ◌∙◌, ◌≡◌,
}
use agent_delegation_network.Protocol.Messages.{expect_dict}
use agent_delegation_network.Release.Archive.{verify_archive_contents}
use agent_delegation_network.Release.Directory.{verify_release_dir}
use agent_delegation_network.Release.Files.{Files, digest_hex, read_json}
use agent_delegation_network.Release.Guarantees.Archive.{
  ArchiveVerified, verify_archive_contents_sound,
}
use agent_delegation_network.Release.Guarantees.Artifact.{ArtifactChecked, fetch_artifact_ok}
use agent_delegation_network.Release.Guarantees.Directory.{
  ReleaseVerified, same_dict, verify_release_dir_sound,
}
use agent_delegation_network.Release.Guarantees.Runs.{RunVerified, TestsVerified, verify_runs_ok}
use agent_delegation_network.Release.Manifest.{text_field}
use agent_delegation_network.Release.Platform.{Platform, Settings, py_str}
use agent_delegation_network.Release.Remote.{
  Client, chosen_repository, fetch_artifact, get_workflow_run, get_workflow_run_artifact,
  normalize_digest, remote_result, verify_release_remote, verify_runs,
}
use agent_delegation_network.Text.Strings.{strip_text}
use agent_delegation_network.Verifier.Guarantees.{expect_dict-eq-ok}

-- The local verdict holds, GitHub confirms both runs, and the archive that it returns for the download
-- address of the attested artifact has the attested digest and holds the retained proof inputs.
pub record RemoteVerified (p : Platform) (client : Client) (settings : Settings) (files : Files)
    (repository : String) : Type 0 where
  pub verdict : Fields
  pub local : ReleaseVerified p settings files verdict
  pub repository_is : get "repository" local.ci ≡ str repository
  pub run : Fields
  pub run_fetched :
      get_workflow_run p client repository (text_field p "workflow_run_id" local.ci) ≡ ok (obj run)
  pub run_verified : RunVerified p local.ci run repository
  pub tests_run : Fields
  pub tests_fetched :
      get_workflow_run p client repository (text_field p "tests_workflow_run_id" local.ci)
      ≡ ok (obj tests_run)
  pub tests_verified : TestsVerified p local.ci tests_run
  pub artifact : Fields
  pub artifact_fetched :
      get_workflow_run_artifact p client repository
        (text_field p "workflow_run_id" local.ci)
        (text_field p "artifact_id" local.ci)
      ≡ ok artifact
  pub artifact_checked : ArtifactChecked p local.ci artifact
  pub artifact_digest :
      normalize_digest p (get "digest" artifact)
      ≡ normalize_digest p (get "artifact_digest" local.ci)
  pub zip_bytes : List ℕ
  pub downloaded :
      client.request (strip_text (text_field p "archive_download_url" artifact)) ≡ ok zip_bytes
  pub zip_digest : normalize_digest p (get "artifact_digest" local.ci) ≡ ok (digest_hex p zip_bytes)
  pub archive : ArchiveVerified p files zip_bytes (py_str p (get "proof_input_digest" local.ci))

module _ (p : Platform) (client : Client) where
  module _ (settings : Settings) (files : Files) (repository : String) where
    -- What is left to do once the local verdict and the attestation are there.
    abbrev remote_steps : Fields → Fields → Result Fields
    remote_steps local ci =
        raise_if (not (is_str repository (get "repository" ci)))
          (runtime_error "CI release evidence repository does not match expected repository")
        >> (verify_runs p client repository ci
            >> (fetch_artifact p client repository ci >>= (λ (zip_bytes, artifact_digest).
                verify_archive_contents p files zip_bytes (py_str p (get "proof_input_digest" ci))
                >> ok (remote_result p client local ci artifact_digest))))

    remote_steps_ok :
        (verdict : Fields) (v : ReleaseVerified p settings files verdict) (out : Fields)
        → remote_steps verdict v.ci ≡ ok out
        → RemoteVerified p client settings files repository
    remote_steps_ok verdict v out h =
        let (same_repository, h1) =
          >>-eq-ok
            (raise_if (not (is_str repository (get "repository" v.ci)))
              (runtime_error "CI release evidence repository does not match expected repository"))
            _ h in
        let (runs_ok, h2) = >>-eq-ok (verify_runs p client repository v.ci) _ h1 in
        let (fetched, is_fetched, h3) = >>=-eq-ok (fetch_artifact p client repository v.ci) _ h2 in
        let (archive_ok, h4) =
          >>-eq-ok
            (verify_archive_contents p files (fetched.0) (py_str p (get "proof_input_digest" v.ci)))
            (ok (remote_result p client verdict v.ci (fetched.1))) h3 in
        let a = fetch_artifact_ok p client repository v.ci (fetched.0) (fetched.1) is_fetched in
        let runs = verify_runs_ok p client repository v.ci runs_ok in
        record {
          verdict = verdict;
          local = v;
          repository_is = is_str→eq repository (get "repository" v.ci) (ground arith);
          run = runs.run;
          run_fetched = runs.run_fetched;
          run_verified = runs.run_verified;
          tests_run = runs.tests_run;
          tests_fetched = runs.tests_fetched;
          tests_verified = runs.tests_verified;
          zip_bytes = fetched.0;
          artifact = a.artifact;
          artifact_fetched = a.fetched;
          artifact_checked = a.checked;
          artifact_digest = a.same_digest;
          downloaded = a.downloaded;
          zip_digest = a.digest_is;
          archive =
              verify_archive_contents_sound p files (fetched.0)
                (py_str p (get "proof_input_digest" v.ci)) archive_ok;
        }

  -- A release passes the remote verification only if its directory passes the local one, GitHub
  -- confirms both runs for the attested commits, its metadata of the attested artifact belong to the
  -- attested run, do not say that it has expired and have the attested digest, and the archive that the client gets for the download
  -- address in those metadata has that digest and holds the retained proof inputs.
  pub verify_release_remote_sound :
      (settings : Settings) (files : Files) (expected : Option String) (out : Fields)
      → verify_release_remote p client settings files expected ≡ ok out
      → RemoteVerified p client settings files (chosen_repository p client settings expected)
  unfolding verify_release_remote
  verify_release_remote_sound settings files expected out h =
      let repository = chosen_repository p client settings expected in
      let (local, accepted_local, h1) = >>=-eq-ok (verify_release_dir p settings files) _ h in
      let (ci_json, ci_read, h2) = >>=-eq-ok (read_json p files "ci_release_sha.json") _ h1 in
      let (ci, is_ci, h3) = >>=-eq-ok (expect_dict ci_json) _ h2 in
      let v = verify_release_dir_sound p settings files local accepted_local in
      let same = same_dict ci v.ci (
        sym (expect_dict-eq-ok ci_json ci is_ci)
        ∙ ok-injective ci_json (obj v.ci) (sym ci_read ∙ v.ci_read)) in
      remote_steps_ok settings files repository local v out
        (subst (λ d. remote_steps settings files repository local d ≡ ok out) same h3)
