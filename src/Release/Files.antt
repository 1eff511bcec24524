-- ===== src/Release/Files.antt =====
-- The files of a proof directory, and the digest of the proof inputs (scripts/verify_release.py).
use agent_delegation_network.Json.{Items, Json, arr, cons, end, field, nil, obj, str}
use agent_delegation_network.Prelude.{
  Bool, List, Result, String, [], false, none, not, ok, os_error, raise_if, raised, runtime_error,
  some, true, ℕ, ◌++◌, ◌>>=◌, ◌>>◌, ◌∷◌,
}
use agent_delegation_network.Prelude.Dict.{Dict, lookup}
use agent_delegation_network.Release.Canonical.{canonical_json}
use agent_delegation_network.Release.Platform.{Platform}
use agent_delegation_network.Text.Strings.{concat_text, join_names}

-- The names of the files there, with their bytes.
abbrev pub Files : Type 0
Files = Dict (List ℕ)

abbrev pub proof_input_files : List String
proof_input_files =
    "deployment_manifest.json" ∷ "deployment_manifest.sig" ∷ "registration_response.json"
    ∷ "invocation_receipt.json" ∷ "t3n_evidence.json" ∷ "replay_restart_proof.json" ∷ []

abbrev pub required_proof_files : List String
required_proof_files = proof_input_files ++ ("ci_release_sha.json" ∷ [])

-- The list as JSON has it.
unfoldable pub str_items : List String → Items
str_items [] = nil
str_items (s ∷ rest) = cons (str s) (str_items rest)

unfoldable pub missing_files : List String → Files → List String
unfolding lookup
missing_files [] files = []
missing_files (name ∷ names) files =
    let rest = missing_files names files in
    elim (lookup name files) [ none ↦ name ∷ rest | some _ ↦ rest ]

abbrev pub is_empty : List String → Bool
is_empty [] = true
is_empty (_ ∷ _) = false

unfoldable pub require_files : Files → List String → Result (Unit {0})
unfolding missing_files join_names concat_text
require_files files names = raise_if (not (is_empty (missing_files names files))) (
    runtime_error
      (concat_text "missing release proof files: " (join_names (missing_files names files))))

-- `path.read_bytes()`
unfoldable pub read_bytes : Files → String → Result (List ℕ)
unfolding lookup
read_bytes files name = elim (lookup name files) [
  | none ↦ raised (os_error "No such file or directory")
  | some content ↦ ok content
]

module _ (p : Platform) where
  unfoldable pub read_json : Files → String → Result Json
  unfolding read_bytes
  read_json files name = read_bytes files name >>= p.loads

  unfoldable pub digest_hex : List ℕ → String
  digest_hex content = p.crypto.sha256_hex content

  -- `digest_hex(canonical_json(v).encode("utf-8"))`
  unfoldable pub json_digest : Json → String
  unfolding digest_hex canonical_json
  json_digest v = digest_hex (p.crypto.encode (canonical_json v))

  abbrev pub digest_entry : String → List ℕ → Json
  digest_entry name content =
      obj (field "path" (str name) (field "sha256" (str (digest_hex content)) end))

  unfoldable pub file_digests : Files → List String → Result Items
  unfolding read_bytes digest_hex
  file_digests files [] = ok nil
  file_digests files (name ∷ names) = do
    content ← read_bytes files name
    rest ← file_digests files names
    ok (cons (digest_entry name content) rest)

  unfoldable pub proof_input_file_digests : Files → Result Items
  unfolding require_files file_digests
  proof_input_file_digests files = do
    require_files files proof_input_files
    file_digests files proof_input_files

  unfoldable pub input_digest : Items → String
  unfolding json_digest
  input_digest entries = json_digest (
      obj (
        field "schema_version" (str "adn-release-proof-input-v1")
          (field "files" (arr entries) end)))

  unfoldable pub compute_proof_input_digest : Files → Result String
  unfolding proof_input_file_digests input_digest
  compute_proof_input_digest files = do
    entries ← proof_input_file_digests files
    ok (input_digest entries)
