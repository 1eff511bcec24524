-- ===== src/Release/AssetRemote.antt =====
-- The files of a published release, fetched and then verified
-- (scripts/verify_release_asset_remote.py).
use agent_delegation_network.Json.{
  Fields, Items, Json, arr, cons, end, field, get, nil, obj, or_else, str,
}
use agent_delegation_network.Prelude.{
  Bool, Exception, List, Option, Result, String, [], contains, false, if◌then◌else◌, none, not, ok,
  raise_if, raised, runtime_error, some, true, type_error, value_error, ℕ, ◌++◌, ◌==◌, ◌>>=◌, ◌>>◌,
  ◌∷◌,
}
use agent_delegation_network.Prelude.Dict.{Dict, insert, lookup}
use agent_delegation_network.Protocol.Messages.{expect_dict}
use agent_delegation_network.Release.Asset.Listing.{
  AssetEntry, asset_files, files_of, insert_name, unseen,
}
use agent_delegation_network.Release.Asset.Verdict.{verify_release_asset_dir}
use agent_delegation_network.Release.Files.{Files, is_empty, read_json}
use agent_delegation_network.Release.Manifest.{text_field}
use agent_delegation_network.Release.Platform.{Platform, Settings, py_str}
use agent_delegation_network.Release.Remote.{
  Client, chosen_repository, fetch_json, parse_repository, require_equal,
}
use agent_delegation_network.Text.Strings.{concat, concat_text, join_names, strip_text}

unfoldable pub sort_names : List String → List String
unfolding insert_name
sort_names [] = []
sort_names (s ∷ rest) = insert_name s (sort_names rest)

unfoldable pub keys_of : Dict Fields → List String
keys_of [] = []
keys_of ((k, v) ∷ d) = k ∷ keys_of d

-- The assets by name, and the unexpected and the repeated names in the order of the list.
pub record AssetMap : Type 0 where
  pub found : Dict Fields
  pub unexpected : List String
  pub duplicate : List String

module _ (p : Platform) where
  unfoldable pub add_asset : AssetMap → Json → Result AssetMap
  unfolding lookup insert py_str
  add_asset m (obj asset) =
      let name = text_field p "name" asset in
      ok (elim (lookup name m.found) [
        | some _ ↦ record m { duplicate = m.duplicate ++ (name ∷ []) }
        | none ↦
            if contains name asset_files
            then record m { found = insert name asset m.found }
            else record m { unexpected = m.unexpected ++ (name ∷ []) }
      ])
  add_asset m _ = raised (runtime_error "GitHub Release asset entry is malformed")

  unfoldable pub add_assets : AssetMap → Items → Result AssetMap
  unfolding add_asset
  add_assets m nil = ok m
  add_assets m (cons v xs) = do more ← add_asset m v; add_assets more xs

  abbrev pub release_error : String → List String → Exception
  release_error s names = runtime_error (concat_text s (join_names (sort_names names)))

  unfoldable pub check_asset_map : AssetMap → Result (Dict Fields)
  unfolding sort_names join_names concat_text unseen keys_of
  check_asset_map m = do
    raise_if (not (is_empty m.duplicate))
        (release_error "duplicate GitHub Release assets: " m.duplicate)
    raise_if (not (is_empty m.unexpected))
        (release_error "unexpected GitHub Release assets: " m.unexpected)
    raise_if (not (is_empty (unseen asset_files (keys_of m.found))))
        (release_error "missing GitHub Release assets: " (unseen asset_files (keys_of m.found)))
    ok m.found

  abbrev pub empty_map : AssetMap
  empty_map = record { found = []; unexpected = []; duplicate = [] }

  -- `release["assets"]` is a list, as its validation has shown.
  unfoldable pub release_asset_map : Fields → Result (Dict Fields)
  unfolding add_assets check_asset_map get
  release_asset_map release = elim (get "assets" release) [
    | arr xs ↦ add_assets empty_map xs >>= check_asset_map
    | _ ↦ raised (type_error "object is not iterable")
  ]

  -- `expected_sha or …` and `if expected_sha`
  abbrev pub sha_or : String → Option String → String
  sha_or target none = target
  sha_or target (some s) = if s == "" then target else s

  unfoldable pub check_sha : Fields → Option String → Result (Unit {0})
  unfolding require_equal get
  check_sha release none = ok tt
  check_sha release (some s) =
      if s == ""
      then ok tt
      else require_equal p "release target_commitish" (get "target_commitish" release) (str s)

  abbrev is_list : Json → Bool
  is_list (arr _) = true
  is_list _ = false

  unfoldable pub validate_release_metadata : Fields → String → Option String → Result (Unit {0})
  unfolding require_equal get check_sha
  validate_release_metadata release tag expected_sha = do
    require_equal p "release tag" (get "tag_name" release) (str tag)
    check_sha release expected_sha
    raise_if (not (is_list (get "assets" release)))
        (runtime_error "GitHub Release assets response is malformed")

  -- `str(release.get("target_commitish", "")).strip()`
  unfoldable pub release_target_of : Fields → String
  unfolding strip_text py_str
  release_target_of release = strip_text (text_field p "target_commitish" release)

  -- The manifest names the repository, the tag and the commit of the release.
  unfoldable pub check_binding :
      Fields → String → String → Option String → String → Result (Unit {0})
  unfolding require_equal get
  check_binding manifest repository tag expected_sha target = do
    require_equal p "release asset manifest repository" (get "repository" manifest) (str repository)
    require_equal p "release asset manifest release_tag" (get "release_tag" manifest) (str tag)
    require_equal p "release asset manifest sha" (get "sha" manifest)
        (str (sha_or target expected_sha))
    require_equal p "release asset manifest sha" (get "sha" manifest) (str target)

  unfoldable pub verify_release_manifest_binding :
      Files → String → String → Option String → String → Result Fields
  unfolding read_json check_binding
  verify_release_manifest_binding files repository tag expected_sha target = do
    v ← read_json p files "release_asset_manifest.json"
    manifest ← expect_dict v
    check_binding manifest repository tag expected_sha target
    ok manifest

  -- `quote` is `urllib.parse.quote(s, safe="")`.
  module _ (client : Client) (quote : String → String) where
    unfoldable pub get_release_by_tag : String → String → Result Json
    unfolding parse_repository fetch_json concat
    get_release_by_tag repository tag = do
      (owner, repo) ← parse_repository repository
      fetch_json p client
          (concat ("/repos/" ∷ owner ∷ "/" ∷ repo ∷ "/releases/tags/" ∷ quote tag ∷ []))

    unfoldable pub download_release_asset : Fields → Result (List ℕ)
    unfolding strip_text py_str get concat
    download_release_asset asset =
        let url = strip_text (
          py_str p
            (or_else (or_else (str "") (get "browser_download_url" asset)) (get "url" asset))) in
        if url == ""
        then raised (
            runtime_error (
              concat (
                "GitHub Release asset "
                ∷ text_field p "name" asset
                ∷ " is missing a download URL"
                ∷ [])))
        else client.request url

    -- The files are written to a directory that is empty before; `written` are those of this run.
    unfoldable pub download_files :
        List String → List String → Dict Fields → Result (List AssetEntry)
    unfolding lookup download_release_asset concat_text
    download_files written [] assets = ok []
    download_files written (name ∷ names) assets = elim (lookup name assets) [
      | none ↦ raised (value_error "no such key")
      | some asset ↦ do
        payload ← download_release_asset asset
        raise_if (contains name written) (
            runtime_error
              (concat_text "refusing to overwrite downloaded GitHub Release asset: " name))
        rest ← download_files (name ∷ written) names assets
        ok (record { name = name; is_symlink = false; is_file = true; content = payload } ∷ rest)
    ]

    unfoldable pub download_release_assets : Fields → Result (List AssetEntry)
    unfolding release_asset_map download_files
    download_release_assets release = do
      assets ← release_asset_map release
      download_files [] asset_files assets

    abbrev pub asset_remote_result : String → String → Fields → Fields → Fields → Fields
    asset_remote_result repository tag manifest local release =
        field "status" (str "REMOTE_RELEASE_ASSET_OK") (
          field "repository" (str repository) (
            field "release_tag" (str tag) (
              field "sha" (get "sha" manifest) (
                field "build_commit" (get "build_commit" local) (
                  field "build_config_id" (get "build_config_id" local) (
                    field "proof_input_digest" (get "proof_input_digest" local)
                      (field "release_url" (get "html_url" release) end)))))))

    unfoldable pub verify_fetched :
        Settings → String → String → Option String → Fields → Result Fields
    unfolding validate_release_metadata release_target_of download_release_assets
        verify_release_manifest_binding verify_release_asset_dir files_of get
    verify_fetched settings repository tag expected_sha release = do
      validate_release_metadata release tag expected_sha
      raise_if (release_target_of release == "")
          (runtime_error "GitHub Release target_commitish is required")
      es ← download_release_assets release
      manifest ←
          verify_release_manifest_binding (files_of es) repository tag expected_sha
            (release_target_of release)
      local ← verify_release_asset_dir p settings es
      ok (asset_remote_result repository tag manifest local release)

    unfoldable pub verify_release_of : Settings → String → String → Option String → Result Fields
    unfolding parse_repository get_release_by_tag verify_fetched
    verify_release_of settings repository tag expected_sha = do
      raise_if (tag == "") (runtime_error "release asset tag is required")
      owner ← parse_repository repository
      v ← get_release_by_tag repository tag
      release ← expect_dict v
      verify_fetched settings repository tag expected_sha release

    -- `tag or os.environ.get("ADN_RELEASE_ASSET_TAG", "").strip()`; `tag_env` is the variable, "" where
    -- it is missing.
    unfoldable pub chosen_tag : String → Option String → String
    unfolding strip_text
    chosen_tag tag_env none = strip_text tag_env
    chosen_tag tag_env (some t) = if t == "" then strip_text tag_env else t

    unfoldable pub verify_release_asset_remote :
        Settings → String → Option String → Option String → Option String → Result Fields
    unfolding verify_release_of chosen_tag
    verify_release_asset_remote settings tag_env repository tag expected_sha =
        verify_release_of settings (chosen_repository p client settings repository)
          (chosen_tag tag_env tag) expected_sha
