-- ===== src/Release/Asset/Unpacking.antt =====
-- The proof inputs out of their archive, into an empty directory (scripts/verify_release_asset.py).
use agent_delegation_network.Prelude.{
  Exception, List, Option, Result, String, [], contains, false, if◌then◌else◌, none, not, ok,
  raise_if, raised, runtime_error, some, true, ℕ, ◌==◌, ◌>>=◌, ◌>>◌, ◌||◌, ◌∷◌,
}
use agent_delegation_network.Prelude.Dict.{insert, lookup}
use agent_delegation_network.Release.Archive.{forward_slashes, is_plain, path_error}
use agent_delegation_network.Release.Asset.Listing.{unseen}
use agent_delegation_network.Release.Files.{Files, is_empty, proof_input_files}
use agent_delegation_network.Release.Platform.{Member, Platform}
use agent_delegation_network.Text.Strings.{after_prefix, concat_text, join_names}

-- The name that an entry is written under, "" where it is not one of the expected.
unfoldable pub output_name : String → String
unfolding after_prefix
output_name name =
    if contains name proof_input_files then name else elim (after_prefix "proof/release/" name) [
      | none ↦ ""
      | some candidate ↦ if contains candidate proof_input_files then candidate else ""
    ]

abbrev entry_error : String → Member → Exception
entry_error s m = runtime_error (concat_text s m.name)

module _ (p : Platform) where
  unfoldable pub check_member : List String → Files → Member → Result (Unit {0})
  unfolding is_plain forward_slashes output_name lookup concat_text
  check_member extracted files m =
      let name = forward_slashes m.name in
      raise_if (not (is_plain p name) || not m.is_file) (path_error m)
      >> raise_if (output_name name == "") (path_error m)
      >> raise_if (contains (output_name name) extracted)
          (entry_error "duplicate proof input archive path: " m)
      >> raise_if (elim m.content [ none ↦ true | some _ ↦ false ])
          (entry_error "cannot read proof input archive path: " m)
      >> raise_if (elim (lookup (output_name name) files) [ none ↦ false | some _ ↦ true ])
          (runtime_error (
            concat_text "refusing to overwrite materialized release proof input: "
              (output_name name)))

  -- The bytes of an entry that `check_member` has let through.
  abbrev content_of : Member → List ℕ
  content_of m = elim m.content [ none ↦ [] | some b ↦ b ]

  unfoldable pub unpack : List String → Files → List Member → Result (List String × Files)
  unfolding check_member insert
  unpack extracted files [] = ok (extracted, files)
  unpack extracted files (m ∷ ms) = do
    check_member extracted files m
    unpack (output_name (forward_slashes m.name) ∷ extracted)
        (insert (output_name (forward_slashes m.name)) (content_of m) files) ms

  unfoldable pub unpack_members : Option (List Member) → Result Files
  unfolding unpack unseen join_names concat_text
  unpack_members none = raised (runtime_error "proof-input.tar is not a valid tar archive")
  unpack_members (some ms) = do
    (extracted, files) ← unpack [] [] ms
    raise_if (not (is_empty (unseen proof_input_files extracted))) (
        runtime_error (
          concat_text "proof-input.tar missing release proof inputs: "
            (join_names (unseen proof_input_files extracted))))
    ok files

  -- `extract_proof_input_tar`, into a directory that is empty.
  unfoldable pub unpack_proof_inputs : List ℕ → Result Files
  unfolding unpack_members
  unpack_proof_inputs tar_bytes = unpack_members (p.open_tar tar_bytes)
