-- ===== src/Release/Printed.antt =====
-- Canonical JSON is the plain print of a value whose keys are sorted (scripts/verify_release.py).
use agent_delegation_network.Json.{
  Fields, Items, Json, arr, bool, cons, end, field, nil, null, num, obj, str,
}
use agent_delegation_network.Prelude.{
  List, String, [], arith, false, if◌then◌else◌, refl, sym, true, ◌++◌, ◌∷◌, ◌≡◌,
}
use agent_delegation_network.Release.Canonical.{
  Chars, canonical, canonical_fields, canonical_items, comes_first, false_word, insert_part,
  join_parts, key_parts, null_word, quote_json_string, true_word,
}
use agent_delegation_network.Text.Strings.{decimal}

unfoldable mutual
  pub print : Json → Chars
  print null = null_word
  print (bool true) = true_word
  print (bool false) = false_word
  print (num n) = decimal n
  print (str s) = quote_json_string s
  print (arr xs) = "[" ∷ (join_parts (print_items xs) ++ ("]" ∷ []))
  print (obj fs) = "{" ∷ (join_parts (print_fields fs) ++ ("}" ∷ []))

  pub print_items : Items → List Chars
  print_items nil = []
  print_items (cons v xs) = print v ∷ print_items xs

  pub print_fields : Fields → List Chars
  print_fields end = []
  print_fields (field k v fs) = (quote_json_string k ++ (":" ∷ print v)) ∷ print_fields fs

unfoldable pub insert_field : String → Json → Fields → Fields
unfolding comes_first
insert_field k v end = field k v end
insert_field k v (field j w fs) =
    let inserted = insert_field k v fs in
    if comes_first j k then field j w inserted else field k v (field j w fs)

unfoldable mutual
  -- The same value with the keys of its dicts in order.
  pub sort_keys : Json → Json
  sort_keys (arr xs) = arr (sort_items xs)
  sort_keys (obj fs) = obj (sort_fields fs)
  sort_keys null = null
  sort_keys (bool b) = bool b
  sort_keys (num n) = num n
  sort_keys (str s) = str s

  sort_items : Items → Items
  sort_items nil = nil
  sort_items (cons v xs) = cons (sort_keys v) (sort_items xs)

  sort_fields : Fields → Fields
  sort_fields end = end
  sort_fields (field k v fs) = insert_field k (sort_keys v) (sort_fields fs)

unfoldable parts_of : Fields → List (String × Chars)
parts_of end = []
parts_of (field k v fs) = (k, print v) ∷ parts_of fs

key_parts-parts_of : (fs : Fields) → key_parts (parts_of fs) ≡ print_fields fs
unfolding key_parts parts_of print
key_parts-parts_of end = refl
key_parts-parts_of (field k v fs) = rw (key_parts-parts_of fs) refl

parts_of-insert_field :
    (k : String) (v : Json) (fs : Fields)
    → parts_of (insert_field k v fs) ≡ insert_part k (print v) (parts_of fs)
unfolding parts_of insert_field insert_part
parts_of-insert_field k v end = refl
parts_of-insert_field k v (field j w fs) = ground (arith, parts_of-insert_field k v fs)

abbrev IsPrinted : Json → Type 0
IsPrinted v = canonical v ≡ print (sort_keys v)

abbrev ItemsPrinted : Items → Type 0
ItemsPrinted xs = canonical_items xs ≡ print_items (sort_items xs)

abbrev FieldsPrinted : Fields → Type 0
FieldsPrinted fs = canonical_fields fs ≡ parts_of (sort_fields fs)

pub canonical-print : (v : Json) → canonical v ≡ print (sort_keys v)
unfolding canonical print sort_keys parts_of
canonical-print v = elim v as IsPrinted ItemsPrinted FieldsPrinted [
  | null ↦ refl
  | bool true ↦ refl
  | bool false ↦ refl
  | num n ↦ refl
  | str s ↦ refl
  | arr (xs → ih) ↦ rw ih refl
  | obj (fs → ih) ↦ rw (ih, key_parts-parts_of (sort_fields fs)) refl
  | nil ↦ refl
  | cons (w → ih) (xs → ihs) ↦ rw (ih, ihs) refl
  | end ↦ refl
  | field k (w → ih) (fs → ihs) ↦
      rw (ih, ihs) (sym (parts_of-insert_field k (sort_keys w) (sort_fields fs)))
]
