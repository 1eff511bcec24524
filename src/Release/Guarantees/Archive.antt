-- ===== src/Release/Guarantees/Archive.antt =====
-- What a verified archive holds (scripts/verify_release_remote.py).
use agent_delegation_network.Prelude.{
  >>-eq-ok, >>=-eq-ok, All, List, String, [], ap, arith, eq_iff, not, ok, raise_if, refl,
  runtime_error, some, sym, ℕ, ◌==◌, ◌∙◌, ◌∷◌, ◌≡◌,
}
use agent_delegation_network.Prelude.Dict.{lookup}
use agent_delegation_network.Release.Archive.{
  compare_files, extract_proof_input_tar, proof_input_digest_from_bytes, verify_archive_contents,
}
use agent_delegation_network.Release.Files.{
  Files, compute_proof_input_digest, digest_hex, file_digests, missing_files,
  proof_input_file_digests, proof_input_files, read_bytes, require_files,
}
use agent_delegation_network.Release.Platform.{Platform}
use agent_delegation_network.Text.Strings.{concat}

-- The two directories have files of the same digest under every name.
pub record SameDigest (p : Platform) (files extracted : Files) (name : String) : Type 0 where
  pub local : List ℕ
  pub local_read : read_bytes files name ≡ ok local
  pub remote : List ℕ
  pub remote_read : read_bytes extracted name ≡ ok remote
  pub same : digest_hex p remote ≡ digest_hex p local

module _ (p : Platform) (files extracted : Files) where
  pub compare_files_ok :
      (names : List String)
      → compare_files p files extracted names ≡ ok tt
      → All (SameDigest p files extracted) names
  unfolding compare_files
  compare_files_ok [] h = tt
  compare_files_ok (name ∷ names) h =
      let (a, read_a, h1) = >>=-eq-ok (read_bytes files name) _ h in
      let (b, read_b, h2) = >>=-eq-ok (read_bytes extracted name) _ h1 in
      let (same, rest) =
        >>-eq-ok
          (raise_if (not (digest_hex p b == digest_hex p a)) (
            runtime_error (
              concat ("downloaded GitHub artifact proof input " ∷ name ∷ " digest mismatch" ∷ []))))
          (compare_files p files extracted names) h2 in
      (
        record {
          local = a;
          local_read = read_a;
          remote = b;
          remote_read = read_b;
          same = ground (arith, eq_iff (digest_hex p b) (digest_hex p a));
        },
        compare_files_ok names rest,
      )

  -- Files of the same digests have the same list of digests.
  same_file_digests :
      (names : List String)
      → All (SameDigest p files extracted) names
      → file_digests p extracted names ≡ file_digests p files names
  unfolding file_digests
  same_file_digests [] _ = refl
  same_file_digests (name ∷ names) (s, rest) =
      rw (s.local_read, s.remote_read, same_file_digests names rest, s.same) refl

  present_of_read :
      (name : String) (b : List ℕ) → read_bytes files name ≡ ok b → lookup name files ≡ some b
  unfolding read_bytes
  present_of_read name b h = ground arith

  none_missing :
      (names : List String)
      → All (SameDigest p files extracted) names
      → missing_files names files ≡ []
  unfolding missing_files
  none_missing [] _ = refl
  none_missing (name ∷ names) (s, rest) =
      ground (arith, present_of_read name s.local s.local_read, none_missing names rest)

  input_digests_agree :
      All (SameDigest p files extracted) proof_input_files
      → proof_input_digest_from_bytes p extracted ≡ compute_proof_input_digest p files
  unfolding proof_input_digest_from_bytes compute_proof_input_digest proof_input_file_digests
      require_files
  input_digests_agree all =
      rw (none_missing proof_input_files all, same_file_digests proof_input_files all) refl

-- The archive has a file of the same digest for every proof input, and the expected digest is the one
-- that the retained proof inputs have.
pub record ArchiveVerified (p : Platform) (files : Files) (zip_bytes : List ℕ) (expected : String)
    : Type 0 where
  pub extracted : Files
  pub extracted_is : extract_proof_input_tar p zip_bytes ≡ ok extracted
  pub contents : All (SameDigest p files extracted) proof_input_files
  pub digest_is : compute_proof_input_digest p files ≡ ok expected

-- An archive is accepted only if it has a file of the same digest for every proof input, and the
-- expected digest is the one that the retained proof inputs have.
pub verify_archive_contents_sound :
    (p : Platform) (files : Files) (zip_bytes : List ℕ) (expected : String)
    → verify_archive_contents p files zip_bytes expected ≡ ok tt
    → ArchiveVerified p files zip_bytes expected
unfolding verify_archive_contents
verify_archive_contents_sound p files zip_bytes expected h =
    let (extracted, is_extracted, h1) = >>=-eq-ok (extract_proof_input_tar p zip_bytes) _ h in
    let (compared, h2) = >>-eq-ok (compare_files p files extracted proof_input_files) _ h1 in
    let (d, is_d, h3) = >>=-eq-ok (proof_input_digest_from_bytes p extracted) _ h2 in
    let contents = compare_files_ok p files extracted proof_input_files compared in
    record {
      extracted = extracted;
      extracted_is = is_extracted;
      contents = contents;
      digest_is =
          sym (input_digests_agree p files extracted contents)
          ∙ (is_d ∙ ap ok (ground (arith, eq_iff d expected)));
    }
