-- ===== src/Release/Guarantees/AssetRemote.antt =====
-- What a fetched release asset guarantees (scripts/verify_release_asset_remote.py).
use agent_delegation_network.Json.{Fields, get, obj, str}
use agent_delegation_network.Prelude.{
  >>-eq-ok, >>=-eq-ok, List, Option, String, ap, ok, ok-injective, raise_if, runtime_error, subst,
  ◌==◌, ◌∙◌, ◌≡◌,
}
use agent_delegation_network.Protocol.Messages.{expect_dict}
use agent_delegation_network.Release.Asset.Listing.{AssetEntry, files_of}
use agent_delegation_network.Release.Asset.Verdict.{verify_release_asset_dir}
use agent_delegation_network.Release.AssetRemote.{
  check_binding, chosen_tag, download_release_assets, get_release_by_tag, release_target_of, sha_or,
  validate_release_metadata, verify_fetched, verify_release_asset_remote,
  verify_release_manifest_binding, verify_release_of,
}
use agent_delegation_network.Release.Files.{Files, read_json}
use agent_delegation_network.Release.Guarantees.Asset.{
  AssetVerified, verify_release_asset_dir_sound,
}
use agent_delegation_network.Release.Guarantees.Runs.{require_equal_ok}
use agent_delegation_network.Release.Platform.{Platform, Settings, py_str}
use agent_delegation_network.Release.Remote.{
  Client, chosen_repository, parse_repository, require_equal,
}
use agent_delegation_network.Verifier.Guarantees.{expect_dict-eq-ok}

module _ (p : Platform) (client : Client) (quote : String → String) where
  -- GitHub shows a release of this tag, whose files are a verified release asset; the manifest among
  -- them names the repository, the tag and the commit of the release.
  pub record AssetRemoteVerified (settings : Settings) (repository tag : String) : Type 0 where
    pub release : Fields
    pub fetched : get_release_by_tag p client quote repository tag ≡ ok (obj release)
    pub tag_is : py_str p (get "tag_name" release) ≡ tag
    pub es : List AssetEntry
    pub downloaded : download_release_assets p client quote release ≡ ok es
    pub verdict : Fields
    pub verified : AssetVerified p settings (files_of es) verdict
    pub manifest : Fields
    pub manifest_read : read_json p (files_of es) "release_asset_manifest.json" ≡ ok (obj manifest)
    pub repository_named : py_str p (get "repository" manifest) ≡ repository
    pub tag_named : py_str p (get "release_tag" manifest) ≡ tag
    pub commit_named : py_str p (get "sha" manifest) ≡ release_target_of p release

  metadata_tag :
      (release : Fields) (tag : String) (expected : Option String)
      → validate_release_metadata p release tag expected ≡ ok tt
      → py_str p (get "tag_name" release) ≡ tag
  unfolding validate_release_metadata py_str
  metadata_tag release tag expected h =
      let (same, rest) =
        >>-eq-ok (require_equal p "release tag" (get "tag_name" release) (str tag)) _ h in
      require_equal_ok p "release tag" (get "tag_name" release) (str tag) same

  record Bound (files : Files) (manifest : Fields) (repository tag target : String) : Type 0 where
    read : read_json p files "release_asset_manifest.json" ≡ ok (obj manifest)
    repository_named : py_str p (get "repository" manifest) ≡ repository
    tag_named : py_str p (get "release_tag" manifest) ≡ tag
    commit_named : py_str p (get "sha" manifest) ≡ target

  binding_ok :
      (files : Files) (repository tag target : String) (expected : Option String)
      (manifest : Fields)
      → verify_release_manifest_binding p files repository tag expected target ≡ ok manifest
      → Bound files manifest repository tag target
  unfolding verify_release_manifest_binding check_binding py_str
  binding_ok files repository tag target expected manifest h =
      let (v, v_read, h1) = >>=-eq-ok (read_json p files "release_asset_manifest.json") _ h in
      let (m, is_m, h2) = >>=-eq-ok (expect_dict v) _ h1 in
      let (bound, same) = >>-eq-ok (check_binding p m repository tag expected target) (ok m) h2 in
      let (named, b1) =
        >>-eq-ok
          (require_equal p "release asset manifest repository" (get "repository" m)
            (str repository))
          _ bound in
      let (tagged, b2) =
        >>-eq-ok
          (require_equal p "release asset manifest release_tag" (get "release_tag" m) (str tag)) _
          b1 in
      let (first_sha, b3) =
        >>-eq-ok
          (require_equal p "release asset manifest sha" (get "sha" m)
            (str (sha_or p target expected)))
          _ b2 in
      subst (λ d. Bound files d repository tag target) (ok-injective m manifest same)
        (record {
          read = v_read ∙ ap ok (expect_dict-eq-ok v m is_m);
          repository_named =
              require_equal_ok p "release asset manifest repository" (get "repository" m)
                (str repository) named;
          tag_named =
              require_equal_ok p "release asset manifest release_tag" (get "release_tag" m)
                (str tag) tagged;
          commit_named =
              require_equal_ok p "release asset manifest sha" (get "sha" m) (str target) b3;
        })

  verify_release_of_sound :
      (settings : Settings) (repository tag : String) (expected : Option String) (out : Fields)
      → verify_release_of p client quote settings repository tag expected ≡ ok out
      → AssetRemoteVerified settings repository tag
  unfolding verify_release_of verify_fetched
  verify_release_of_sound settings repository tag expected out h =
      let (tag_given, h1) =
        >>-eq-ok (raise_if (tag == "") (runtime_error "release asset tag is required")) _ h in
      let (owner, is_owner, h2) = >>=-eq-ok (parse_repository repository) _ h1 in
      let (v, v_fetched, h3) = >>=-eq-ok (get_release_by_tag p client quote repository tag) _ h2 in
      let (release, is_release, h4) = >>=-eq-ok (expect_dict v) _ h3 in
      let (metadata, h5) = >>-eq-ok (validate_release_metadata p release tag expected) _ h4 in
      let (target_given, h6) =
        >>-eq-ok
          (raise_if (release_target_of p release == "")
            (runtime_error "GitHub Release target_commitish is required"))
          _ h5 in
      let (es, downloaded, h7) = >>=-eq-ok (download_release_assets p client quote release) _ h6 in
      let (manifest, bound, h8) =
        >>=-eq-ok
          (verify_release_manifest_binding p (files_of es) repository tag expected
            (release_target_of p release))
          _ h7 in
      let (verdict, is_verdict, h9) = >>=-eq-ok (verify_release_asset_dir p settings es) _ h8 in
      let b =
        binding_ok (files_of es) repository tag (release_target_of p release) expected manifest
          bound in
      record {
        release = release;
        fetched = v_fetched ∙ ap ok (expect_dict-eq-ok v release is_release);
        tag_is = metadata_tag release tag expected metadata;
        es = es;
        downloaded = downloaded;
        verdict = verdict;
        verified = verify_release_asset_dir_sound p settings es verdict is_verdict;
        manifest = manifest;
        manifest_read = b.read;
        repository_named = b.repository_named;
        tag_named = b.tag_named;
        commit_named = b.commit_named;
      }

  -- A published release passes only if GitHub shows it under the chosen tag, its files are a verified
  -- release asset, and the signed manifest among them names the chosen repository, the tag and the
  -- release's commit.
  pub verify_release_asset_remote_sound :
      (settings : Settings) (tag_env : String) (repository tag expected : Option String)
      (out : Fields)
      → verify_release_asset_remote p client quote settings tag_env repository tag expected ≡ ok out
      → AssetRemoteVerified settings
          (chosen_repository p client settings repository)
          (chosen_tag p client quote tag_env tag)
  unfolding verify_release_asset_remote
  verify_release_asset_remote_sound settings tag_env repository tag expected out h =
      verify_release_of_sound settings (chosen_repository p client settings repository)
        (chosen_tag p client quote tag_env tag) expected out h
