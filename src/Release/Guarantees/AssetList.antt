-- ===== src/Release/Guarantees/AssetList.antt =====
-- What the checked list of a release asset says (scripts/verify_release_asset.py).
use agent_delegation_network.Json.{
  Fields, Items, Json, arr, bool, cons, get, nil, null, num, obj, str,
}
use agent_delegation_network.Prelude.{
  >>-eq-ok, >>=-eq-ok, All, Bool, List, String, [], arith, contains, eq_iff, false, ok, raised,
  refl, subst, sym, true, type_error, ℕ, ◌==◌, ◌||◌, ◌∷◌, ◌≡◌,
}
use agent_delegation_network.Protocol.Messages.{expect_dict}
use agent_delegation_network.Release.Asset.Listing.{
  all_in, check_asset_header, check_files, check_hash, check_hashes, check_list, check_listed,
  in_seen, payload_files, validate_release_asset_manifest, verify_release_asset_hashes,
}
use agent_delegation_network.Release.Files.{Files, digest_hex, read_bytes}
use agent_delegation_network.Release.Platform.{Platform, py_str}
use agent_delegation_network.Verifier.Guarantees.{expect_dict-eq-ok}
use agent_delegation_network.Verifier.Nonces.{is_seen}

module _ (p : Platform) where
  -- Every listed file has the digest that the list gives it.
  abbrev pub HashesMatch : Files → Items → Type 0
  HashesMatch files nil = Unit
  HashesMatch files (cons v xs) =
      ((entry : Fields) × (content : List ℕ) × (v ≡ obj entry)
        × (read_bytes files (py_str p (get "path" entry)) ≡ ok content)
        × (digest_hex p content ≡ py_str p (get "sha256" entry)))
      × HashesMatch files xs

  pub check_hashes_ok :
      (files : Files) (xs : Items) → check_hashes p files xs ≡ ok tt → HashesMatch files xs
  unfolding check_hashes check_hash
  check_hashes_ok files nil h = tt
  check_hashes_ok files (cons v xs) h =
      let (entry, is_entry, h1) = >>=-eq-ok (expect_dict v) _ h in
      let (hash_ok, rest) = >>-eq-ok (check_hash p files entry) _ h1 in
      let (content, is_read, h2) =
        >>=-eq-ok (read_bytes files (py_str p (get "path" entry))) _ hash_ok in
      (
        (
          entry,
          content,
          expect_dict-eq-ok v entry is_entry,
          is_read,
          ground (arith, eq_iff (digest_hex p content) (py_str p (get "sha256" entry))),
        ),
        check_hashes_ok files xs rest,
      )

  listed_of :
      (files : Files) (v : Json)
      → elim v [
        | arr xs ↦ check_hashes p files xs
        | _ ↦ raised (type_error "object is not iterable")
      ]
        ≡ ok tt
      → (xs : Items) × (v ≡ arr xs) × HashesMatch files xs
  listed_of files (arr xs) h = (xs, refl, check_hashes_ok files xs h)
  listed_of files null h = absurd (cc)
  listed_of files (bool b) h = absurd (cc)
  listed_of files (num n) h = absurd (cc)
  listed_of files (str s) h = absurd (cc)
  listed_of files (obj fs) h = absurd (cc)

  pub listed_ok :
      (files : Files) (manifest : Fields)
      → verify_release_asset_hashes p files manifest ≡ ok tt
      → (xs : Items) × (get "files" manifest ≡ arr xs) × HashesMatch files xs
  unfolding verify_release_asset_hashes
  listed_ok files manifest h = listed_of files (get "files" manifest) h

or_swap : (a b d : Bool) → (a || b) || d ≡ true → b || (a || d) ≡ true
or_swap a b d h = ground arith

module _ (p : Platform) where
  check_listed_ok :
      (seen : List String) (v : Json) (more : List String)
      → check_listed p seen v ≡ ok more
      → (entry : Fields) × (v ≡ obj entry) × (more ≡ py_str p (get "path" entry) ∷ seen)
  unfolding check_listed
  check_listed_ok seen (obj entry) more h =
      let (repeated, is_repeated, h1) = >>=-eq-ok (in_seen seen (get "path" entry)) _ h in
      (entry, refl, ground arith)
  check_listed_ok seen (arr xs) more h = absurd (cc)
  check_listed_ok seen null more h = absurd (cc)
  check_listed_ok seen (bool b) more h = absurd (cc)
  check_listed_ok seen (num n) more h = absurd (cc)
  check_listed_ok seen (str s) more h = absurd (cc)

  -- Whether an entry of the list has this path.
  abbrev pub is_listed : String → Items → Bool
  is_listed name nil = false
  is_listed name (cons (obj entry) xs) = (py_str p (get "path" entry) == name) || is_listed name xs
  is_listed name (cons _ xs) = is_listed name xs

  check_list_ok :
      (seen : List String) (xs : Items) (out : List String) (name : String)
      → check_list p seen xs ≡ ok out
      → contains name out ≡ true
      → contains name seen || is_listed name xs ≡ true
  unfolding check_list
  check_list_ok seen nil out name h member = ground arith
  check_list_ok seen (cons v xs) out name h member =
      let (more, listed, h1) = >>=-eq-ok (check_listed p seen v) _ h in
      let (entry, is_entry, e) = check_listed_ok seen v more listed in
      let later = check_list_ok more xs out name h1 member in
      let here = subst (λ l. contains name l || is_listed name xs ≡ true) e later in
      subst (λ w. contains name seen || is_listed name (cons w xs) ≡ true) (sym is_entry)
        (or_swap (py_str p (get "path" entry) == name) (contains name seen) (is_listed name xs)
          here)

  each_name_listed :
      (names : List String) (xs : Items) (out : List String)
      → check_list p [] xs ≡ ok out
      → all_in names out ≡ true
      → All (λ name. is_listed name xs ≡ true) names
  unfolding all_in
  each_name_listed [] xs out h inside = tt
  each_name_listed (name ∷ names) xs out h inside = (
    check_list_ok [] xs out name h (ground arith),
    each_name_listed names xs out h (ground arith),
  )

  check_files_ok :
      (xs : Items)
      → check_files p (arr xs) ≡ ok tt
      → All (λ name. is_listed name xs ≡ true) payload_files
  unfolding check_files
  check_files_ok xs h =
      let (seen, is_seen, h1) = >>=-eq-ok (check_list p [] xs) _ h in
      each_name_listed payload_files xs seen is_seen (ground arith)

  pub listed_files :
      (manifest : Fields)
      → validate_release_asset_manifest p manifest ≡ ok tt
      → (xs : Items) → get "files" manifest ≡ arr xs
      → All (λ name. is_listed name xs ≡ true) payload_files
  unfolding validate_release_asset_manifest
  listed_files manifest h xs e =
      let (header, h1) = >>-eq-ok (check_asset_header p manifest) _ h in
      let (files_ok, h2) = >>-eq-ok (check_files p (get "files" manifest)) _ h1 in
      check_files_ok xs (subst (λ v. check_files p v ≡ ok tt) e files_ok)
