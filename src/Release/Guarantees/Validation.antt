-- ===== src/Release/Guarantees/Validation.antt =====
-- What a manifest that scripts/validate_manifest.py accepts guarantees.
use agent_delegation_network.Json.{
  Fields, Json, arr, bool, end, field, get, has, null, num, obj, str,
}
use agent_delegation_network.Json.Equality.{is_str→eq}
use agent_delegation_network.Prelude.{
  >>=-eq-ok, All, Bool, List, Option-cases, String, [], ap, arith, contains, eq_iff, false,
  if◌then◌else◌, inl, inr, ok, ok-injective, refl, some, subst, sym, true, ℕ, ◌&&◌, ◌++◌, ◌∙◌, ◌∷◌,
  ◌≡◌,
}
use agent_delegation_network.Prelude.Dict.{lookup}
use agent_delegation_network.Protocol.Messages.{expect_dict}
use agent_delegation_network.Release.Files.{Files, digest_hex, read_json}
use agent_delegation_network.Release.Platform.{Platform}
use agent_delegation_network.Release.Schema.{manifest_fields}
use agent_delegation_network.Release.Validation.{
  digest_checks, digest_errors, file_errors, missing_errors, own_errors, path_errors,
  placeholder_digest, undeclared_errors, validate, validate_fields, version_errors,
}
use agent_delegation_network.Verifier.Guarantees.{expect_dict-eq-ok}

no_append : {A : Type 0} (xs ys : List A) → xs ++ ys ≡ [] → (xs ≡ []) × (ys ≡ [])
no_append [] ys h = (refl, h)
no_append (x ∷ xs) ys h = absurd (cc)

missing_errors_ok :
    (names : List String) (manifest : Fields) (name : String)
    → missing_errors names manifest ≡ []
    → contains name names ≡ true
    → has name manifest ≡ true
unfolding missing_errors
missing_errors_ok [] manifest name h member = absurd (cc)
missing_errors_ok (k ∷ names) manifest name h member =
    ground (arith, eq_iff k name, missing_errors_ok names manifest name)

same_truth : (a b : Bool) → (a ≡ true → b ≡ true) → (b ≡ true → a ≡ true) → a ≡ b
same_truth true b f g = sym (f refl)
same_truth false true f g = g refl
same_truth false false f g = refl

undeclared_errors_ok :
    (names : List String) (manifest : Fields) (name : String)
    → undeclared_errors names manifest ≡ []
    → has name manifest ≡ true
    → contains name names ≡ true
unfolding undeclared_errors has
undeclared_errors_ok names end name h member = absurd (cc)
undeclared_errors_ok names (field k v fs) name h member =
    ground (arith, eq_iff k name, undeclared_errors_ok names fs name)

-- The bytes under the path that a field names have the digest that another field declares.
unfoldable pub IsRetained : Platform → Files → Fields → String → String → Type 0
IsRetained p files manifest digest_field path_field =
    (path : String) × (content : List ℕ) × (get path_field manifest ≡ str path)
    × (lookup path files ≡ some content)
    × (get digest_field manifest ≡ str (digest_hex p content))

module _ (p : Platform) where
  file_errors_ok :
      (files : Files) (manifest : Fields) (digest_field path_field path : String)
      → get path_field manifest ≡ str path
      → file_errors p files path (get digest_field manifest) ≡ []
      → IsRetained p files manifest digest_field path_field
  unfolding file_errors IsRetained
  file_errors_ok files manifest digest_field path_field path named h =
      elim (Option-cases (lookup path files)) [
        | inl e ↦ absurd (ground arith)
        | inr (content, e) ↦ (
          path,
          content,
          named,
          e,
          is_str→eq (digest_hex p content) (get digest_field manifest) (ground arith),
        )
      ]

  path_errors_ok :
      (files : Files) (manifest : Fields) (digest_field path_field : String) (v : Json)
      → get path_field manifest ≡ v
      → path_errors p files v (get digest_field manifest) ≡ ok []
      → IsRetained p files manifest digest_field path_field
  unfolding path_errors
  path_errors_ok files manifest digest_field path_field (str path) named h =
      file_errors_ok files manifest digest_field path_field path named (ok-injective _ _ h)
  path_errors_ok files manifest digest_field path_field null named h = absurd (cc)
  path_errors_ok files manifest digest_field path_field (bool b) named h = absurd (cc)
  path_errors_ok files manifest digest_field path_field (num n) named h = absurd (cc)
  path_errors_ok files manifest digest_field path_field (arr xs) named h = absurd (cc)
  path_errors_ok files manifest digest_field path_field (obj fs) named h = absurd (cc)

  digest_errors_ok :
      (files : Files) (manifest : Fields) (checks : List (String × String))
      → digest_errors p files manifest checks ≡ ok []
      → All
          (λ (d, f). has d manifest && has f manifest ≡ true → IsRetained p files manifest d f)
          checks
  unfolding digest_errors
  digest_errors_ok files manifest [] h = tt
  digest_errors_ok files manifest ((d, f) ∷ checks) h =
      let (errors, is_errors, h1) =
        >>=-eq-ok
          (if has d manifest && has f manifest
            then path_errors p files (get f manifest) (get d manifest)
            else ok [])
          _ h in
      let (more, is_more, e) = >>=-eq-ok (digest_errors p files manifest checks) _ h1 in
      let (no_errors, no_more) = no_append errors more (ok-injective _ _ e) in
      (
        λ both. path_errors_ok files manifest d f (get f manifest) refl (
            subst
              (λ b.
                (if b then path_errors p files (get f manifest) (get d manifest) else ok [])
                ≡ ok errors)
              both is_errors
            ∙ ap ok no_errors),
        digest_errors_ok files manifest checks (is_more ∙ ap ok no_more),
      )

  version_errors_ok :
      (manifest : Fields)
      → version_errors p manifest ≡ []
      → get "schema_version" manifest ≡ str "adn-release-proof-v1"
  unfolding version_errors
  version_errors_ok manifest h =
      is_str→eq "adn-release-proof-v1" (get "schema_version" manifest) (ground arith)

  own_errors_ok :
      (manifest : Fields)
      → own_errors p manifest ≡ []
      → has "manifest_digest" manifest ≡ true
      → get "manifest_digest" manifest ≡ str (placeholder_digest p manifest)
  unfolding own_errors
  own_errors_ok manifest h given_digest =
      is_str→eq (placeholder_digest p manifest) (get "manifest_digest" manifest) (ground arith)

  -- If `validate` finds no error, the manifest is there, its fields are exactly the fields of the
  -- manifest format, its version is the one that is supported, each of its three digests that stands
  -- beside a path is that of the file under the path, and its own digest is that of the manifest with
  -- "TBD" in its place.
  pub validate_accepts :
      (files : Files)
      → validate p files ≡ ok []
      → (manifest : Fields) × (read_json p files "deployment_manifest.json" ≡ ok (obj manifest))
        × ((name : String) → has name manifest ≡ contains name manifest_fields)
        × (get "schema_version" manifest ≡ str "adn-release-proof-v1")
        × All
            (λ (d, f). has d manifest && has f manifest ≡ true → IsRetained p files manifest d f)
            digest_checks
        × (get "manifest_digest" manifest ≡ str (placeholder_digest p manifest))
  unfolding validate validate_fields
  validate_accepts files valid =
      let (json, is_read, h1) = >>=-eq-ok (read_json p files "deployment_manifest.json") _ valid in
      let (manifest, is_manifest, h2) = >>=-eq-ok (expect_dict json) _ h1 in
      let (digests, is_digests, e) =
        >>=-eq-ok (digest_errors p files manifest digest_checks) _ h2 in
      let (none_missing, e1) =
        no_append (missing_errors manifest_fields manifest) _ (ok-injective _ _ e) in
      let (versions, e2) = no_append (version_errors p manifest) _ e1 in
      let (declared, e3) = no_append (undeclared_errors manifest_fields manifest) _ e2 in
      let (no_digests, own) = no_append digests (own_errors p manifest) e3 in
      let present =
        λ (name : String). missing_errors_ok manifest_fields manifest name none_missing in
      let listed = λ (name : String). undeclared_errors_ok manifest_fields manifest name declared in
      (
        manifest,
        is_read ∙ ap ok (expect_dict-eq-ok json manifest is_manifest),
        λ name.
            same_truth (has name manifest) (contains name manifest_fields) (listed name)
              (present name),
        version_errors_ok manifest versions,
        digest_errors_ok files manifest digest_checks (is_digests ∙ ap ok no_digests),
        own_errors_ok manifest own (present "manifest_digest" refl),
      )
