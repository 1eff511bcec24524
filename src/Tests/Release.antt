-- ===== src/Tests/Release.antt =====
-- The release scripts on the samples.
use agent_delegation_network.Json.{
  Fields, Json, arr, bool, cons, end, field, find, get, get_or, has, is_str, nil, num, obj, str,
  truthy,
}
use agent_delegation_network.Json.Equality.{py_eq}
use agent_delegation_network.Prelude.{
  All, List, Result, String, [], arith, contains, none, ok, raised, refl, some, true, type_error, ℕ,
  ◌&&◌, ◌↔◌, ◌∷◌, ◌≡◌, ◌≤◌,
}
use agent_delegation_network.Prelude.Dict.{lookup}
use agent_delegation_network.Release.Archive.{verify_archive_contents}
use agent_delegation_network.Release.Asset.Listing.{files_of}
use agent_delegation_network.Release.Asset.Verdict.{verify_release_asset_dir}
use agent_delegation_network.Release.AssetRemote.{
  asset_remote_result, chosen_tag, verify_release_asset_remote,
}
use agent_delegation_network.Release.Canonical.{canonical_json, insert_part, join_parts, key_parts}
use agent_delegation_network.Release.Directory.{verify_release_dir}
use agent_delegation_network.Release.Files.{read_json, str_items}
use agent_delegation_network.Release.Guarantees.Archive.{
  ArchiveVerified, verify_archive_contents_sound,
}
use agent_delegation_network.Release.Guarantees.Asset.{
  AssetVerified, verify_release_asset_dir_sound,
}
use agent_delegation_network.Release.Guarantees.AssetRemote.{
  AssetRemoteVerified, verify_release_asset_remote_sound,
}
use agent_delegation_network.Release.Guarantees.Directory.{
  ReleaseVerified, verify_release_dir_sound,
}
use agent_delegation_network.Release.Guarantees.Remote.{RemoteVerified, verify_release_remote_sound}
use agent_delegation_network.Release.Guarantees.Schema.{schema_field_fits}
use agent_delegation_network.Release.Guarantees.Validation.{IsRetained, validate_accepts}
use agent_delegation_network.Release.Injective.{canonical_json_iff}
use agent_delegation_network.Release.Paging.{list_pages, list_pages-Ends, read_page}
use agent_delegation_network.Release.Platform.{pinned_key_of, py_str}
use agent_delegation_network.Release.Printed.{sort_keys}
use agent_delegation_network.Release.Remote.{chosen_repository, verify_release_remote}
use agent_delegation_network.Release.Schema.{
  fits_pattern, hex_pattern, manifest_fields, one_of, release_schema, string_kind,
  validate_manifest_schema,
}
use agent_delegation_network.Release.Validation.{digest_checks, placeholder_digest, validate}
use agent_delegation_network.Tests.ReleaseSamples.{
  asset_manifest, asset_verdict, hex_64, remote_verdict, sample_asset, sample_client, sample_files,
  sample_invocation, sample_loads, sample_manifest, sample_platform, sample_release, sample_replay,
  sample_settings, sample_verdict,
}
use agent_delegation_network.Text.Strings.{characters, decimal}

sample_accepted :
    verify_release_dir sample_platform sample_settings sample_files ≡ ok sample_verdict
unfolding verify_release_dir sample_loads characters fits_pattern one_of py_str pinned_key_of
    str_items
sample_accepted = refl

verify_release_dir_sound_example :
    ReleaseVerified sample_platform sample_settings sample_files sample_verdict
verify_release_dir_sound_example =
    verify_release_dir_sound sample_platform sample_settings sample_files sample_verdict
      sample_accepted

schema_field_fits_example :
    (s : String) × (get "build_commit" sample_manifest ≡ str s)
    × (fits_pattern sample_platform (hex_pattern "^[0-9a-f]{40}$" 40) s ≡ true)
schema_field_fits_example =
    schema_field_fits sample_platform release_schema sample_manifest "build_commit"
      (record {
        const = none;
        enum = none;
        kind = some string_kind;
        min_length = 0;
        shape = some (hex_pattern "^[0-9a-f]{40}$" 40);
        minimum = none;
      })
      (hex_pattern "^[0-9a-f]{40}$" 40) refl (unfold lookup in refl) refl refl
      (unfold validate_manifest_schema characters fits_pattern one_of py_str is_str py_eq in refl)

canonical_text :
    canonical_json
      (obj (field "b" (num 120) (field "a" (arr (cons (str "x\n\"") (cons (bool true) nil))) end)))
    ≡ "{\"a\":[\"x\\n\\\"\",true],\"b\":120}"
unfolding canonical_json characters insert_part join_parts key_parts decimal
canonical_text = refl

remotely_accepted :
    verify_release_remote sample_platform sample_client sample_settings sample_files none
    ≡ ok remote_verdict
unfolding verify_release_remote sample_loads characters fits_pattern one_of pinned_key_of str_items
remotely_accepted = refl

verify_release_remote_sound_example :
    RemoteVerified sample_platform sample_client sample_settings sample_files
      (chosen_repository sample_platform sample_client sample_settings none)
verify_release_remote_sound_example =
    verify_release_remote_sound sample_platform sample_client sample_settings sample_files none
      remote_verdict remotely_accepted

archive_accepted : verify_archive_contents sample_platform sample_files [] hex_64 ≡ ok tt
unfolding verify_archive_contents
archive_accepted = refl

verify_archive_contents_sound_example : ArchiveVerified sample_platform sample_files [] hex_64
verify_archive_contents_sound_example =
    verify_archive_contents_sound sample_platform sample_files [] hex_64 archive_accepted

asset_accepted :
    verify_release_asset_dir sample_platform sample_settings sample_asset ≡ ok asset_verdict
unfolding verify_release_asset_dir sample_loads characters truthy pinned_key_of fits_pattern
    str_items
asset_accepted = refl

verify_release_asset_dir_sound_example :
    AssetVerified sample_platform sample_settings (files_of sample_asset) asset_verdict
verify_release_asset_dir_sound_example =
    verify_release_asset_dir_sound sample_platform sample_settings sample_asset asset_verdict
      asset_accepted

canonical_json_iff_example :
    (canonical_json (obj sample_invocation) ≡ canonical_json (obj sample_replay))
    ↔ (sort_keys (obj sample_invocation) ≡ sort_keys (obj sample_replay))
canonical_json_iff_example = canonical_json_iff (obj sample_invocation) (obj sample_replay)

validated : validate sample_platform sample_files ≡ ok []
unfolding validate sample_loads
validated = refl

validate_accepts_example :
    (manifest : Fields) × (read_json sample_platform sample_files "deployment_manifest.json"
      ≡ ok (obj manifest))
    × ((name : String) → has name manifest ≡ contains name manifest_fields)
    × (get "schema_version" manifest ≡ str "adn-release-proof-v1")
    × All
        (λ (d, f).
          has d manifest && has f manifest ≡ true
          → IsRetained sample_platform sample_files manifest d f)
        digest_checks
    × (get "manifest_digest" manifest ≡ str (placeholder_digest sample_platform manifest))
validate_accepts_example = validate_accepts sample_platform sample_files validated

-- Two pages of one entry each, where two are announced.
abbrev two_pages : ℕ → Result Json
two_pages n =
    ok (obj (field "total_count" (num 2) (field "artifacts" (arr (cons (num n) nil)) end)))

abbrev read_count : Json → Result ℕ
read_count (num n) = ok n
read_count _ = raised (type_error "int() argument must be a number")

both_pages :
    list_pages two_pages read_count "artifacts" "GitHub artifacts response is malformed" 3 1 [] none
    ≡ some (ok (num 1 ∷ num 2 ∷ []))
unfolding list_pages get_or find
both_pages = refl

two_announced :
    (n total : ℕ) (entries : List Json)
    → read_page two_pages read_count "artifacts" "GitHub artifacts response is malformed" n
      ≡ ok (total, entries)
    → total ≤ 2
unfolding read_page get_or find
two_announced n total entries h = ground arith

list_pages-Ends_example :
    (out : Result (List Json)) × (list_pages two_pages read_count "artifacts"
        "GitHub artifacts response is malformed" 3 1 [] none
      ≡ some out)
list_pages-Ends_example =
    list_pages-Ends two_pages read_count "artifacts" "GitHub artifacts response is malformed" 2
      two_announced

abbrev published_verdict : Fields
published_verdict =
    asset_remote_result sample_platform sample_client (λ s. s) "o/r" "v1" asset_manifest
      asset_verdict sample_release

published_accepted :
    verify_release_asset_remote sample_platform sample_client
      (λ s. s)
      sample_settings
      " v1"
      none
      none
      none
    ≡ ok published_verdict
unfolding verify_release_asset_remote sample_loads characters truthy pinned_key_of fits_pattern
    str_items
published_accepted = refl

verify_release_asset_remote_sound_example :
    AssetRemoteVerified sample_platform sample_client
      (λ s. s)
      sample_settings
      (chosen_repository sample_platform sample_client sample_settings none)
      (chosen_tag sample_platform sample_client (λ s. s) " v1" none)
verify_release_asset_remote_sound_example =
    verify_release_asset_remote_sound sample_platform sample_client (λ s. s) sample_settings " v1"
      none none none published_verdict published_accepted
