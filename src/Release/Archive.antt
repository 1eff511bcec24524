-- ===== src/Release/Archive.antt =====
-- The archive of the proof inputs, in an artifact of GitHub (scripts/verify_release_remote.py).
use agent_delegation_network.Json.{Fields, arr, end, field, str}
use agent_delegation_network.Prelude.{
  Bool, Exception, List, Option, Result, String, [], contains, false, if◌then◌else◌, none, not, ok,
  raise_if, raised, runtime_error, some, true, ℕ, ◌&&◌, ◌==◌, ◌>>=◌, ◌>>◌, ◌∷◌,
}
use agent_delegation_network.Prelude.Dict.{Dict, insert, lookup}
use agent_delegation_network.Release.Canonical.{backslash}
use agent_delegation_network.Release.Files.{
  Files, digest_hex, file_digests, input_digest, proof_input_files, read_bytes, str_items,
}
use agent_delegation_network.Release.Platform.{Member, Platform}
use agent_delegation_network.Text.Characters.{same_char}
use agent_delegation_network.Text.Strings.{concat, concat_text, starts_with}

abbrev pub proof_input_tar : String
proof_input_tar = "proof-input.tar"

-- `name.replace("\\", "/")`
unfoldable pub forward_slashes : String → String
forward_slashes String.[] = String.[]
forward_slashes (String.◌∷◌ x s) =
    String.◌∷◌ (if same_char x backslash then "/" else x) (forward_slashes s)

-- `f"proof/release/{name}"`
abbrev pub release_path : String → String
release_path name = concat_text "proof/release/" name

unfoldable pub release_paths : List String → List String
unfolding concat_text
release_paths [] = []
release_paths (name ∷ names) = release_path name ∷ release_paths names

abbrev pub path_error : Member → Exception
path_error m = runtime_error (concat_text "unexpected proof input archive path: " m.name)

module _ (p : Platform) where
  -- A path that stays inside of the archive, written in one way only.
  unfoldable pub is_plain : String → Bool
  unfolding starts_with
  is_plain name = not (starts_with "/" name) && p.normpath name == name

  -- `members[normalized_name] = member` for every entry, in order
  unfoldable pub collect_members : Dict Member → List Member → Result (Dict Member)
  unfolding forward_slashes is_plain release_paths insert
  collect_members found [] = ok found
  collect_members found (m ∷ ms) = do
    raise_if
        (not (
          is_plain (forward_slashes m.name)
          && contains (forward_slashes m.name) (release_paths proof_input_files)))
        (path_error m)
    raise_if (not m.is_file) (path_error m)
    collect_members (insert (forward_slashes m.name) m found) ms

  unfoldable pub read_member : String → Dict Member → Result (List ℕ)
  unfolding lookup concat_text
  read_member path found = elim (lookup path found) [
    | none ↦
        raised
          (runtime_error (concat_text "downloaded GitHub artifact is missing proof input " path))
    | some m ↦ elim m.content [
      | none ↦
          raised
            (runtime_error (concat_text "downloaded GitHub artifact cannot read proof input " path))
      | some content ↦ ok content
    ]
  ]

  unfoldable pub read_members : List String → Dict Member → Result Files
  unfolding read_member
  read_members [] found = ok []
  read_members (name ∷ names) found = do
    content ← read_member (release_path name) found
    rest ← read_members names found
    ok ((name, content) ∷ rest)

  unfoldable pub read_tar_entry : Option (Dict (List ℕ)) → Result (List ℕ)
  unfolding lookup
  read_tar_entry none =
      raised (runtime_error "downloaded GitHub artifact is not a valid ZIP archive")
  read_tar_entry (some entries) = elim (lookup proof_input_tar entries) [
    | none ↦ raised (runtime_error "downloaded GitHub artifact is missing proof-input.tar")
    | some payload ↦ ok payload
  ]

  unfoldable pub extract_members : Option (List Member) → Result Files
  unfolding collect_members read_members
  extract_members none = raised (runtime_error "proof-input.tar is not a valid tar archive")
  extract_members (some ms) = do found ← collect_members [] ms; read_members proof_input_files found

  unfoldable pub extract_proof_input_tar : List ℕ → Result Files
  unfolding read_tar_entry extract_members
  extract_proof_input_tar zip_bytes = do
    payload ← read_tar_entry (p.open_zip zip_bytes)
    extract_members (p.open_tar payload)

  -- `file_bytes[name]` raises a KeyError where the name is missing, which the callers rule out.
  unfoldable pub proof_input_digest_from_bytes : Files → Result String
  unfolding file_digests input_digest
  proof_input_digest_from_bytes extracted = do
    entries ← file_digests p extracted proof_input_files
    ok (input_digest p entries)

  -- `target.write_bytes(payload)` for every file, each of which must not be there yet. Where one is,
  -- the files written before it stay; the result does not tell of them.
  unfoldable pub write_new : Files → Files → Result Files
  unfolding lookup insert concat_text
  write_new files [] = ok files
  write_new files ((name, content) ∷ rest) = do
    raise_if (elim (lookup name files) [ none ↦ false | some _ ↦ true ])
        (runtime_error (concat_text "refusing to overwrite materialized proof input: " name))
    write_new (insert name content files) rest

  unfoldable pub materialize_proof_inputs : Files → List ℕ → Result (Files × Fields)
  unfolding extract_proof_input_tar write_new proof_input_digest_from_bytes
  materialize_proof_inputs output zip_bytes = do
    extracted ← extract_proof_input_tar zip_bytes
    files ← write_new output extracted
    d ← proof_input_digest_from_bytes extracted
    ok (
      files,
      field "proof_input_digest" (str d)
          (field "proof_input_files" (arr (str_items proof_input_files)) end),
    )

  unfoldable pub compare_files : Files → Files → List String → Result (Unit {0})
  unfolding read_bytes digest_hex concat
  compare_files files extracted [] = ok tt
  compare_files files extracted (name ∷ names) = do
    local ← read_bytes files name
    remote ← read_bytes extracted name
    raise_if (not (digest_hex p remote == digest_hex p local)) (
        runtime_error
          (concat ("downloaded GitHub artifact proof input " ∷ name ∷ " digest mismatch" ∷ [])))
    compare_files files extracted names

  unfoldable pub verify_archive_contents : Files → List ℕ → String → Result (Unit {0})
  unfolding extract_proof_input_tar compare_files proof_input_digest_from_bytes
  verify_archive_contents files zip_bytes expected = do
    extracted ← extract_proof_input_tar zip_bytes
    compare_files files extracted proof_input_files
    d ← proof_input_digest_from_bytes extracted
    raise_if (not (d == expected)) (
        runtime_error "downloaded GitHub artifact proof_input_digest does not match CI attestation")
