-- ===== src/Release/Guarantees/Schema.antt =====
-- What a manifest that the schema admits looks like (scripts/verify_release.py).
use agent_delegation_network.Json.{
  Fields, Json, arr, bool, end, field, find, get, null, num, obj, str,
}
use agent_delegation_network.Prelude.{
  >>-eq-ok, List, String, [], arith, contains, eq_iff, false, length, ltb, none, ok, raise_if, refl,
  some, subst, true, ◌==◌, ◌>>◌, ◌∷◌, ◌≡◌,
}
use agent_delegation_network.Prelude.Dict.{Dict, lookup}
use agent_delegation_network.Release.Platform.{Platform, py_str}
use agent_delegation_network.Release.Schema.{
  Pattern, Rule, Schema, blank, check_allowed, check_const, check_enum, check_kind, check_pattern,
  check_present, check_rule, check_rules, fits_pattern, no_rule, rule_for, schema_error,
  string_kind, validate_manifest_schema,
}
use agent_delegation_network.Text.Strings.{characters}

check_present_ok :
    (names : List String) (manifest : Fields) (name : String)
    → check_present names manifest ≡ ok tt
    → contains name names ≡ true
    → blank (get name manifest) ≡ false
unfolding check_present
check_present_ok [] manifest name h member = cc
check_present_ok (k ∷ names) manifest name h member =
    let (here, later) =
      >>-eq-ok
        (raise_if (blank (get k manifest)) (schema_error ("missing required field: " ∷ k ∷ [])))
        (check_present names manifest) h in
    ground (arith, eq_iff k name, check_present_ok names manifest name later)

check_allowed_ok :
    (rules : Dict Rule) (manifest : Fields) (name : String)
    → check_allowed rules manifest ≡ ok tt
    → lookup name rules ≡ none
    → find name manifest ≡ none
unfolding check_allowed find
check_allowed_ok rules end name h absent = refl
check_allowed_ok rules (field k v fs) name h absent =
    let (here, later) =
      >>-eq-ok
        (raise_if (elim (lookup k rules) [ none ↦ true | some _ ↦ false ])
          (schema_error ("additional property not allowed: " ∷ k ∷ [])))
        (check_allowed rules fs) h in
    ground (arith, eq_iff k name, check_allowed_ok rules fs name later absent)

found_of_get :
    (manifest : Fields) (name : String)
    → blank (get name manifest) ≡ false
    → find name manifest ≡ some (get name manifest)
unfolding get find
found_of_get manifest name h = ground arith

module _ (p : Platform) where
  check_rules_ok :
      (rules : Dict Rule) (manifest : Fields) (name : String) (v : Json)
      → check_rules p rules manifest ≡ ok tt
      → find name manifest ≡ some v
      → check_rule p name (rule_for p rules name) v ≡ ok tt
  unfolding check_rules find
  check_rules_ok rules end name v h found = absurd (cc)
  check_rules_ok rules (field k w fs) name v h found =
      let (here, later) =
        >>-eq-ok (check_rule p k (rule_for p rules k) w) (check_rules p rules fs) h in
      ground (arith, eq_iff k name, check_rules_ok rules fs name v later)

  check_text_ok :
      (name : String) (rule : Rule) (v : Json)
      → check_kind p name rule (some string_kind) v ≡ ok tt
      → (s : String) × (v ≡ str s) × (check_pattern p name rule.shape s ≡ ok tt)
  unfolding check_kind
  check_text_ok name rule (str s) h =
      let (before, fits) =
        >>-eq-ok
          (raise_if (s == "") (schema_error (name ∷ " must be a non-empty string" ∷ []))
            >> raise_if (ltb (length (characters s)) rule.min_length)
                (schema_error (name ∷ " is shorter than " ∷ py_str p (num rule.min_length) ∷ [])))
          (check_pattern p name rule.shape s) h in
      (s, refl, fits)
  check_text_ok name rule null h = absurd (cc)
  check_text_ok name rule (bool b) h = absurd (cc)
  check_text_ok name rule (num n) h = absurd (cc)
  check_text_ok name rule (arr xs) h = absurd (cc)
  check_text_ok name rule (obj fs) h = absurd (cc)

  check_pattern_ok :
      (name : String) (q : Pattern) (s : String)
      → check_pattern p name (some q) s ≡ ok tt
      → fits_pattern p q s ≡ true
  unfolding check_pattern
  check_pattern_ok name q s h = ground arith

  check_rule_ok :
      (name : String) (rule : Rule) (q : Pattern) (v : Json)
      → rule.kind ≡ some string_kind
      → rule.shape ≡ some q
      → check_rule p name rule v ≡ ok tt
      → (s : String) × (v ≡ str s) × (fits_pattern p q s ≡ true)
  unfolding check_rule
  check_rule_ok name rule q v is_text shaped h =
      let (before, h1) =
        >>-eq-ok (check_const p name rule.const v >> check_enum p name rule.enum v)
          (check_kind p name rule rule.kind v) h in
      let (s, e, h2) =
        check_text_ok name rule v (subst (λ k. check_kind p name rule k v ≡ ok tt) is_text h1) in
      (s, e, check_pattern_ok name q s (subst (λ k. check_pattern p name k s ≡ ok tt) shaped h2))

  -- A manifest that the schema admits has each required field whose rule has a pattern, as a text that
  -- fits the pattern.
  pub schema_field_fits :
      (schema : Schema) (manifest : Fields) (name : String) (rule : Rule) (q : Pattern)
      → contains name schema.required ≡ true
      → lookup name schema.properties ≡ some rule
      → rule.kind ≡ some string_kind
      → rule.shape ≡ some q
      → validate_manifest_schema p schema manifest ≡ ok tt
      → (s : String) × (get name manifest ≡ str s) × (fits_pattern p q s ≡ true)
  unfolding validate_manifest_schema
  schema_field_fits schema manifest name rule q needed ruled is_text shaped h =
      let (before, ruled_ok) =
        >>-eq-ok
          (check_present schema.required manifest >> check_allowed schema.properties manifest)
          (check_rules p schema.properties manifest) h in
      let (present, only) =
        >>-eq-ok (check_present schema.required manifest) (check_allowed schema.properties manifest)
          before in
      let found =
        found_of_get manifest name
          (check_present_ok schema.required manifest name present needed) in
      let checked =
        check_rules_ok schema.properties manifest name (get name manifest) ruled_ok found in
      check_rule_ok name rule q (get name manifest) is_text shaped (
        subst
          (λ o.
            check_rule p name (elim o [ none ↦ no_rule | some r ↦ r ]) (get name manifest) ≡ ok tt)
          ruled checked)
