-- ===== src/Release/Asset/Listing.antt =====
-- The files of a release, and the manifest that lists them (scripts/verify_release_asset.py).
use agent_delegation_network.Json.{
  Fields, Items, Json, arr, cons, get, is_str, nil, obj, or_else, str,
}
use agent_delegation_network.Prelude.{
  Bool, Exception, List, Result, String, [], contains, false, if◌then◌else◌, invalid_signature, not,
  ok, raise_if, raised, runtime_error, true, type_error, ℕ, ◌&&◌, ◌++◌, ◌==◌, ◌>>=◌, ◌>>◌, ◌||◌,
  ◌∷◌,
}
use agent_delegation_network.Protocol.Messages.{expect_dict}
use agent_delegation_network.Release.Canonical.{canonical_json, comes_first}
use agent_delegation_network.Release.Files.{
  Files, digest_hex, is_empty, json_digest, missing_files, read_bytes,
}
use agent_delegation_network.Release.Manifest.{
  check_keys, check_signature, load_key, manifest_body, require_fields, text_field,
}
use agent_delegation_network.Release.Platform.{Platform, Settings, pinned_key_of, py_str}
use agent_delegation_network.Release.Schema.{one_of}
use agent_delegation_network.Text.Strings.{
  concat, concat_text, is_hex_text, join_names, starts_with,
}

abbrev pub payload_files : List String
payload_files =
    "proof-input.tar" ∷ "ci_release_sha.json" ∷ "remote_verification_result.json"
    ∷ "workflow_metadata.json" ∷ []

abbrev pub asset_files : List String
asset_files = payload_files ++ ("release_asset_manifest.json" ∷ "release_asset_manifest.sig" ∷ [])

-- An entry of the directory; `is_file` follows a symbolic link.
pub record AssetEntry : Type 0 where
  pub name : String
  pub is_symlink : Bool
  pub is_file : Bool
  pub content : List ℕ

-- The files that can be read under their names.
unfoldable pub files_of : List AssetEntry → Files
files_of [] = []
files_of (e ∷ es) = let rest = files_of es in if e.is_file then (e.name, e.content) ∷ rest else rest

abbrev asset_error : List String → Exception
asset_error pieces = runtime_error (concat ("release asset manifest " ∷ pieces))

unfoldable pub check_entries : List AssetEntry → Result (Unit {0})
unfolding starts_with concat_text
check_entries [] = ok tt
check_entries (e ∷ es) =
    raise_if
      (not (starts_with "." e.name)
        && (e.is_symlink || not e.is_file || not (contains e.name asset_files)))
      (runtime_error (concat_text "unexpected release asset file: " e.name))
    >> check_entries es

unfoldable pub require_release_asset_files : List AssetEntry → Result (Unit {0})
unfolding missing_files files_of check_entries concat_text join_names
require_release_asset_files es = do
  raise_if (not (is_empty (missing_files asset_files (files_of es)))) (
      runtime_error (
        concat_text "missing release asset files: "
          (join_names (missing_files asset_files (files_of es)))))
  check_entries es

abbrev pub required_asset_fields : List String
required_asset_fields =
    "schema_version" ∷ "repository" ∷ "sha" ∷ "release_tag" ∷ "operator_public_key"
    ∷ "proof_input_digest" ∷ "remote_verification_status" ∷ "files" ∷ "created_at"
    ∷ "manifest_digest" ∷ []

-- `path in seen` of a set of texts: a list or a dict has no hash.
abbrev pub in_seen : List String → Json → Result Bool
in_seen seen (str s) = ok (contains s seen)
in_seen seen (arr _) = raised (type_error "unhashable type")
in_seen seen (obj _) = raised (type_error "unhashable type")
in_seen seen _ = ok false

unfoldable pub all_in : List String → List String → Bool
all_in [] ys = true
all_in (x ∷ xs) ys = contains x ys && all_in xs ys

-- `sorted(set(xs) - seen)`, where the members of `xs` are distinct
unfoldable pub insert_name : String → List String → List String
unfolding comes_first
insert_name s [] = s ∷ []
insert_name s (t ∷ rest) =
    let inserted = insert_name s rest in if comes_first t s then t ∷ inserted else s ∷ t ∷ rest

unfoldable pub unseen : List String → List String → List String
unfolding insert_name
unseen [] seen = []
unseen (x ∷ xs) seen =
    let rest = unseen xs seen in if contains x seen then rest else insert_name x rest

module _ (p : Platform) where
  -- One entry of `files`; the names that were seen, with its own.
  unfoldable pub check_listed : List String → Json → Result (List String)
  unfolding get one_of is_hex_text py_str
  check_listed seen (obj entry) = do
    repeated ← in_seen seen (get "path" entry)
    raise_if repeated (asset_error ("contains duplicate file: " ∷ py_str p (get "path" entry) ∷ []))
    raise_if (not (one_of payload_files (get "path" entry)))
        (asset_error ("contains unexpected file: " ∷ py_str p (get "path" entry) ∷ []))
    raise_if (not (is_hex_text 64 (py_str p (or_else (str "") (get "sha256" entry)))))
        (asset_error ("digest for " ∷ py_str p (get "path" entry) ∷ " must be 64-hex SHA-256" ∷ []))
    ok (py_str p (get "path" entry) ∷ seen)
  check_listed seen _ = raised (asset_error ("files entries must be objects" ∷ []))

  unfoldable pub check_list : List String → Items → Result (List String)
  unfolding check_listed
  check_list seen nil = ok seen
  check_list seen (cons v xs) = do more ← check_listed seen v; check_list more xs

  unfoldable pub check_files : Json → Result (Unit {0})
  unfolding check_list all_in unseen join_names
  check_files (arr xs) = do
    seen ← check_list [] xs
    raise_if (not (all_in seen payload_files && all_in payload_files seen))
        (asset_error ("missing file digests: " ∷ join_names (unseen payload_files seen) ∷ []))
  check_files _ = raised (asset_error ("files must be a list" ∷ []))

  unfoldable pub check_asset_header : Fields → Result (Unit {0})
  unfolding require_fields is_str get is_hex_text
  check_asset_header manifest = do
    require_fields "release asset manifest" manifest required_asset_fields
    raise_if (not (is_str "adn-release-asset-manifest-v1" (get "schema_version" manifest)))
        (asset_error ("schema_version must be adn-release-asset-manifest-v1" ∷ []))
    raise_if (not (is_str "REMOTE_OK" (get "remote_verification_status" manifest)))
        (asset_error ("remote_verification_status must be REMOTE_OK" ∷ []))
    raise_if (not (is_hex_text 64 (text_field p "proof_input_digest" manifest)))
        (asset_error ("proof_input_digest must be a 64-hex SHA-256 digest" ∷ []))

  unfoldable pub validate_release_asset_manifest : Fields → Result (Unit {0})
  unfolding check_asset_header check_files json_digest manifest_body is_str get
  validate_release_asset_manifest manifest = do
    check_asset_header manifest
    check_files (get "files" manifest)
    raise_if
        (not
          (is_str (json_digest p (obj (manifest_body manifest))) (get "manifest_digest" manifest)))
        (asset_error ("digest mismatch" ∷ []))

  -- `raise RuntimeError(…) from exc` for an InvalidSignature
  abbrev pub as_runtime_error : Result (Unit {0}) → Result (Unit {0})
  as_runtime_error (raised (invalid_signature e)) =
      raised (runtime_error "release_asset_manifest.sig signature verification failed")
  as_runtime_error r = r

  unfoldable pub verify_asset_signature : Settings → Fields → Fields → Result (Unit {0})
  unfolding check_keys load_key check_signature manifest_body canonical_json
  verify_asset_signature settings manifest signature_doc = do
    check_keys p "release asset manifest" "release_asset_manifest.sig" (pinned_key_of settings)
        manifest signature_doc
    key ← load_key p (pinned_key_of settings)
    as_runtime_error (
        check_signature p key (text_field p "signature_hex" signature_doc)
          (canonical_json (obj (manifest_body manifest))))

  unfoldable pub check_hash : Files → Fields → Result (Unit {0})
  unfolding read_bytes digest_hex concat get py_str
  check_hash files entry = do
    content ← read_bytes files (py_str p (get "path" entry))
    raise_if (not (digest_hex p content == py_str p (get "sha256" entry))) (
        runtime_error (
          concat (
            "release asset digest mismatch for "
            ∷ py_str p (get "path" entry)
            ∷ ": expected "
            ∷ py_str p (get "sha256" entry)
            ∷ ", got "
            ∷ digest_hex p content
            ∷ [])))

  unfoldable pub check_hashes : Files → Items → Result (Unit {0})
  unfolding check_hash
  check_hashes files nil = ok tt
  check_hashes files (cons v xs) = do
    entry ← expect_dict v
    check_hash files entry
    check_hashes files xs

  -- `manifest["files"]` is a list, as its validation has shown.
  unfoldable pub verify_release_asset_hashes : Files → Fields → Result (Unit {0})
  unfolding check_hashes get
  verify_release_asset_hashes files manifest = elim (get "files" manifest) [
    | arr xs ↦ check_hashes files xs
    | _ ↦ raised (type_error "object is not iterable")
  ]
