-- ===== src/Release/Schema.antt =====
-- `validate_manifest_schema` of scripts/verify_release.py, and the schema that it reads,
-- schemas/adn-release-proof-v1.schema.json.
use Prim.Native.Char.{Char}
use agent_delegation_network.Json.{Fields, Json, end, field, get, is_str, num, str}
use agent_delegation_network.Json.Equality.{is_null, py_eq}
use agent_delegation_network.Prelude.{
  Bool, Exception, List, Option, Result, String, [], false, if◌then◌else◌, length, ltb, none, not,
  ok, raise_if, raised, runtime_error, some, suc, true, zero, ℕ, ◌&&◌, ◌==◌, ◌>>◌, ◌||◌, ◌∷◌,
}
use agent_delegation_network.Prelude.Dict.{Dict, lookup}
use agent_delegation_network.Release.Canonical.{Chars}
use agent_delegation_network.Release.Platform.{Platform, py_str}
use agent_delegation_network.Text.Characters.{same_char}
use agent_delegation_network.Text.Strings.{characters, concat, concat_text, is_hex_text, join_names}

-- The patterns of the schema: so many hexadecimal digits, and a version of three numbers.
pub data Pattern : Type 0 where
  hex_pattern : String → ℕ → Pattern
  version_pattern : Pattern

pub data ValueKind : Type 0 where
  string_kind integer_kind : ValueKind

pub record Rule : Type 0 where
  pub const : Option Json
  pub enum : Option (List String)
  pub kind : Option ValueKind
  pub min_length : ℕ
  pub shape : Option Pattern
  pub minimum : Option ℕ

pub record Schema : Type 0 where
  pub required : List String
  pub properties : Dict Rule

abbrev pub no_rule : Rule
no_rule = record {
  const = none;
  enum = none;
  kind = none;
  min_length = 0;
  shape = none;
  minimum = none;
}

-- `re.fullmatch` of numbers with dots between them: `groups` more are to follow, and `seen` tells
-- whether this one has a digit.
unfoldable pub match_version : (Char → Bool) → ℕ → Bool → Chars → Bool
match_version is_decimal zero seen [] = seen
match_version is_decimal (suc groups) seen [] = false
match_version is_decimal zero seen (c ∷ s) =
    let more = match_version is_decimal zero true s in if is_decimal c then more else false
match_version is_decimal (suc groups) seen (c ∷ s) =
    let more = match_version is_decimal (suc groups) true s in
    let next = match_version is_decimal groups false s in
    if is_decimal c then more else if same_char c "." then seen && next else false

abbrev pub pattern_text : Pattern → String
pattern_text (hex_pattern t n) = t
pattern_text version_pattern = "^\\d+\\.\\d+\\.\\d+$"

abbrev pub blank : Json → Bool
blank v = is_null v || is_str "" v

abbrev pub schema_error : List String → Exception
schema_error pieces = runtime_error (concat_text "deployment manifest schema " (concat pieces))

unfoldable pub check_present : List String → Fields → Result (Unit {0})
unfolding get
check_present [] manifest = ok tt
check_present (name ∷ names) manifest =
    raise_if (blank (get name manifest)) (schema_error ("missing required field: " ∷ name ∷ []))
    >> check_present names manifest

unfoldable pub check_allowed : Dict Rule → Fields → Result (Unit {0})
unfolding lookup
check_allowed rules end = ok tt
check_allowed rules (field name v fs) =
    raise_if (elim (lookup name rules) [ none ↦ true | some _ ↦ false ])
      (schema_error ("additional property not allowed: " ∷ name ∷ []))
    >> check_allowed rules fs

unfoldable pub one_of : List String → Json → Bool
one_of [] v = false
one_of (s ∷ rest) v = py_eq v (str s) || one_of rest v

module _ (p : Platform) where
  unfoldable pub fits_pattern : Pattern → String → Bool
  unfolding is_hex_text match_version
  fits_pattern (hex_pattern t n) s = is_hex_text n s
  fits_pattern version_pattern s = match_version p.is_decimal 2 false (characters s)

  unfoldable pub check_const : String → Option Json → Json → Result (Unit {0})
  check_const name none v = ok tt
  check_const name (some c) v =
      raise_if (not (py_eq v c)) (schema_error (name ∷ " must equal " ∷ py_str p c ∷ []))

  unfoldable pub check_enum : String → Option (List String) → Json → Result (Unit {0})
  check_enum name none v = ok tt
  check_enum name (some names) v =
      raise_if (not (one_of names v))
        (schema_error (name ∷ " must be one of " ∷ join_names names ∷ []))

  unfoldable pub check_pattern : String → Option Pattern → String → Result (Unit {0})
  check_pattern name none s = ok tt
  check_pattern name (some q) s =
      raise_if (not (fits_pattern q s))
        (schema_error (name ∷ " does not match " ∷ pattern_text q ∷ []))

  unfoldable pub check_minimum : String → Option ℕ → ℕ → Result (Unit {0})
  check_minimum name none n = ok tt
  check_minimum name (some m) n =
      raise_if (ltb n m) (schema_error (name ∷ " must be >= " ∷ py_str p (num m) ∷ []))

  unfoldable pub check_kind : String → Rule → Option ValueKind → Json → Result (Unit {0})
  unfolding check_pattern check_minimum
  check_kind name rule none v = ok tt
  check_kind name rule (some string_kind) (str s) =
      raise_if (s == "") (schema_error (name ∷ " must be a non-empty string" ∷ []))
      >> raise_if (ltb (length (characters s)) rule.min_length)
          (schema_error (name ∷ " is shorter than " ∷ py_str p (num rule.min_length) ∷ []))
      >> check_pattern name rule.shape s
  check_kind name rule (some string_kind) _ =
      raised (schema_error (name ∷ " must be a non-empty string" ∷ []))
  check_kind name rule (some integer_kind) (num n) = check_minimum name rule.minimum n
  check_kind name rule (some integer_kind) _ =
      raised (schema_error (name ∷ " must be an integer" ∷ []))

  unfoldable pub check_rule : String → Rule → Json → Result (Unit {0})
  unfolding check_const check_enum check_kind
  check_rule name rule v =
      check_const name rule.const v
      >> check_enum name rule.enum v
      >> check_kind name rule rule.kind v

  abbrev pub rule_for : Dict Rule → String → Rule
  rule_for rules name = elim (lookup name rules) [ none ↦ no_rule | some rule ↦ rule ]

  unfoldable pub check_rules : Dict Rule → Fields → Result (Unit {0})
  unfolding check_rule lookup
  check_rules rules end = ok tt
  check_rules rules (field name v fs) =
      check_rule name (rule_for rules name) v >> check_rules rules fs

  unfoldable pub validate_manifest_schema : Schema → Fields → Result (Unit {0})
  unfolding check_present check_allowed check_rules
  validate_manifest_schema schema manifest =
      check_present schema.required manifest
      >> check_allowed schema.properties manifest
      >> check_rules schema.properties manifest

abbrev text_rule : Rule
text_rule = record no_rule { kind = some string_kind }

abbrev digest_rule : Rule
digest_rule = record text_rule { shape = some (hex_pattern "^[0-9a-f]{64}$" 64) }

abbrev pub manifest_fields : List String
manifest_fields =
    "schema_version" ∷ "contract_tail" ∷ "contract_version" ∷ "build_commit" ∷ "rustc_version"
    ∷ "trusted_issuer" ∷ "tenant_did" ∷ "build_config_id" ∷ "local_wasm_sha256"
    ∷ "registration_status" ∷ "registered_at" ∷ "remote_contract_id"
    ∷ "raw_registration_response_digest" ∷ "raw_registration_response_path"
    ∷ "first_invocation_digest" ∷ "first_invocation_path" ∷ "t3n_evidence_digest"
    ∷ "t3n_evidence_path" ∷ "operator_public_key" ∷ "manifest_digest" ∷ []

abbrev pub release_schema : Schema
release_schema = record {
  required = manifest_fields;
  properties =
      ("schema_version", record text_rule { const = some (str "adn-release-proof-v1") })
      ∷ ("contract_tail", text_rule)
      ∷ ("contract_version", record text_rule { shape = some version_pattern })
      ∷ ("build_commit", record text_rule { shape = some (hex_pattern "^[0-9a-f]{40}$" 40) })
      ∷ ("rustc_version", text_rule)
      ∷ ("trusted_issuer", text_rule)
      ∷ ("tenant_did", text_rule)
      ∷ ("build_config_id", text_rule)
      ∷ ("local_wasm_sha256", digest_rule)
      ∷ (
        "registration_status",
        record text_rule { enum = some ("registered" ∷ "pending" ∷ "failed" ∷ []) },
      )
      ∷ ("registered_at", text_rule)
      ∷ ("remote_contract_id", record no_rule { kind = some integer_kind })
      ∷ ("raw_registration_response_digest", digest_rule)
      ∷ ("raw_registration_response_path", text_rule)
      ∷ ("first_invocation_digest", digest_rule)
      ∷ ("first_invocation_path", text_rule)
      ∷ ("t3n_evidence_digest", digest_rule)
      ∷ ("t3n_evidence_path", text_rule)
      ∷ ("operator_public_key", text_rule)
      ∷ ("manifest_digest", digest_rule)
      ∷ [];
}
