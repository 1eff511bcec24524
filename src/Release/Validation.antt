-- ===== src/Release/Validation.antt =====
-- `validate` of scripts/validate_manifest.py, and how its digest differs from that of
-- scripts/verify_release.py.
use agent_delegation_network.Auth.Hashing.{digest}
use agent_delegation_network.Json.{Fields, Json, end, field, get, has, is_str, obj, str}
use agent_delegation_network.Prelude.{
  List, Result, String, [], contains, if◌then◌else◌, none, not, ok, raised, some, type_error, ◌&&◌,
  ◌++◌, ◌==◌, ◌>>=◌, ◌∷◌,
}
use agent_delegation_network.Prelude.Dict.{lookup}
use agent_delegation_network.Protocol.Messages.{expect_dict}
use agent_delegation_network.Release.Files.{Files, digest_hex, read_json}
use agent_delegation_network.Release.Platform.{Platform, py_str}
use agent_delegation_network.Release.Schema.{manifest_fields}
use agent_delegation_network.Text.Strings.{concat, concat_text}

-- `d[k] = v`
unfoldable pub set_field : String → Json → Fields → Fields
set_field k v end = field k v end
set_field k v (field j w fs) =
    let later = set_field k v fs in if j == k then field k v fs else field j w later

unfoldable pub missing_errors : List String → Fields → List String
unfolding has concat_text
missing_errors [] manifest = []
missing_errors (name ∷ names) manifest =
    let rest = missing_errors names manifest in
    if has name manifest then rest else concat_text "Missing required field: " name ∷ rest

unfoldable pub undeclared_errors : List String → Fields → List String
unfolding concat_text
undeclared_errors declared end = []
undeclared_errors declared (field name v fs) =
    let rest = undeclared_errors declared fs in
    if contains name declared
    then rest
    else concat_text "Undeclared field (use remediation_report.json for extra data): " name ∷ rest

abbrev pub digest_checks : List (String × String)
digest_checks =
    ("raw_registration_response_digest", "raw_registration_response_path")
    ∷ ("first_invocation_digest", "first_invocation_path")
    ∷ ("t3n_evidence_digest", "t3n_evidence_path")
    ∷ []

module _ (p : Platform) where
  unfoldable pub version_errors : Fields → List String
  unfolding is_str get concat py_str
  version_errors manifest =
      if is_str "adn-release-proof-v1" (get "schema_version" manifest)
      then []
      else concat (
          "schema_version must be 'adn-release-proof-v1', got: "
          ∷ py_str p (get "schema_version" manifest)
          ∷ [])
        ∷ []

  -- The message on a missing file has the path without the directory.
  unfoldable pub file_errors : Files → String → Json → List String
  unfolding lookup digest_hex is_str concat py_str
  file_errors files path declared = elim (lookup path files) [
    | none ↦ concat ("File not found: " ∷ path ∷ []) ∷ []
    | some content ↦
        if is_str (digest_hex p content) declared
        then []
        else concat (
            "Digest mismatch for "
            ∷ path
            ∷ ": declared="
            ∷ py_str p declared
            ∷ ", actual="
            ∷ digest_hex p content
            ∷ [])
          ∷ []
  ]

  -- `files` are under the paths that the manifest gives, as they are seen from the directory.
  unfoldable pub path_errors : Files → Json → Json → Result (List String)
  unfolding file_errors
  path_errors files (str path) declared = ok (file_errors files path declared)
  path_errors files _ declared = raised (type_error "join() argument must be str")

  unfoldable pub digest_errors : Files → Fields → List (String × String) → Result (List String)
  unfolding has get path_errors
  digest_errors files manifest [] = ok []
  digest_errors files manifest ((digest_field, path_field) ∷ rest) = do
    errors ←
        if has digest_field manifest && has path_field manifest
        then path_errors files (get path_field manifest) (get digest_field manifest)
        else ok []
    more ← digest_errors files manifest rest
    ok (errors ++ more)

  -- The digest of the manifest with "TBD" in the place of its digest.
  unfoldable pub placeholder_digest : Fields → String
  unfolding digest set_field
  placeholder_digest manifest =
      digest p.crypto (obj (set_field "manifest_digest" (str "TBD") manifest))

  unfoldable pub own_errors : Fields → List String
  unfolding placeholder_digest has is_str get concat py_str
  own_errors manifest =
      if has "manifest_digest" manifest
        && not (is_str (placeholder_digest manifest) (get "manifest_digest" manifest))
      then concat (
          "manifest_digest mismatch: declared="
          ∷ py_str p (get "manifest_digest" manifest)
          ∷ ", computed="
          ∷ placeholder_digest manifest
          ∷ [])
        ∷ []
      else []

  unfoldable pub validate_fields : Files → Fields → Result (List String)
  unfolding missing_errors version_errors undeclared_errors digest_errors own_errors
  validate_fields files manifest = do
    digests ← digest_errors files manifest digest_checks
    ok (
        missing_errors manifest_fields manifest
        ++ (version_errors manifest
            ++ (undeclared_errors manifest_fields manifest ++ (digests ++ own_errors manifest))))

  unfoldable pub validate : Files → Result (List String)
  unfolding read_json validate_fields
  validate files = do
    v ← read_json p files "deployment_manifest.json"
    manifest ← expect_dict v
    validate_fields files manifest
