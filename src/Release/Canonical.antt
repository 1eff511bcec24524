-- ===== src/Release/Canonical.antt =====
-- `quote_json_string` and `canonical_json` of scripts/verify_release.py. The texts of the wire have no
-- floats and no keys but texts, so that nothing is refused.
use Prim.Native.Char.{Char, code}
use Prim.Native.Nat.{◌/◌, ◌%◌}
use text.Mathlib.TextBridge.{of_list}
use text.Mathlib.Text.{is_lt}
use Prim.Native.String as NativeString
use agent_delegation_network.Json.{
  Fields, Items, Json, arr, bool, cons, end, field, nil, null, num, obj, str,
}
use agent_delegation_network.Prelude.{
  Bool, List, String, [], false, if◌then◌else◌, leb, true, ℕ, ◌&&◌, ◌++◌, ◌+◌, ◌∷◌,
}
use agent_delegation_network.Text.Characters.{chr, same_char}
use agent_delegation_network.Text.Strings.{characters, decimal}

abbrev pub Chars : Type 0
Chars = List Char

abbrev pub quote_mark : Char
quote_mark = "\""

abbrev pub backslash : Char
backslash = "\\"

abbrev pub null_word : Chars
null_word = "n" ∷ "u" ∷ "l" ∷ "l" ∷ []

abbrev pub true_word : Chars
true_word = "t" ∷ "r" ∷ "u" ∷ "e" ∷ []

abbrev pub false_word : Chars
false_word = "f" ∷ "a" ∷ "l" ∷ "s" ∷ "e" ∷ []

-- One digit of `%04x`.
unfoldable pub hex_digit : ℕ → Char
unfolding chr
hex_digit n = if leb n 9 then chr (48 + n) else chr (87 + n)

-- What one character of a text becomes.
unfoldable pub escaped : Char → Chars
unfolding hex_digit
escaped c =
    if same_char c backslash
    then backslash ∷ backslash ∷ []
    else if same_char c quote_mark
    then backslash ∷ quote_mark ∷ []
    else if leb (code c) 8 && leb 8 (code c)
    then backslash ∷ "b" ∷ []
    else if leb (code c) 9 && leb 9 (code c)
    then backslash ∷ "t" ∷ []
    else if leb (code c) 10 && leb 10 (code c)
    then backslash ∷ "n" ∷ []
    else if leb (code c) 12 && leb 12 (code c)
    then backslash ∷ "f" ∷ []
    else if leb (code c) 13 && leb 13 (code c)
    then backslash ∷ "r" ∷ []
    else if leb (code c) 31
    then backslash ∷ "u" ∷ "0" ∷ "0" ∷ hex_digit (code c / 16) ∷ hex_digit (code c % 16) ∷ []
    else c ∷ []

unfoldable pub escape_text : Chars → Chars
unfolding escaped
escape_text [] = quote_mark ∷ []
escape_text (c ∷ s) = escaped c ++ escape_text s

unfoldable pub quote_json_string : String → Chars
unfolding escape_text
quote_json_string s = quote_mark ∷ escape_text (characters s)

-- `",".join(parts)` behind the first part
unfoldable pub join_more : List Chars → Chars
join_more [] = []
join_more (s ∷ rest) = "," ∷ (s ++ join_more rest)

unfoldable pub join_parts : List Chars → Chars
unfolding join_more
join_parts [] = []
join_parts (s ∷ rest) = s ++ join_more rest

-- Keys are sorted by their code points.
unfoldable pub comes_first : String → String → Bool
comes_first j k = is_lt (NativeString.compare j k)

unfoldable pub insert_part : String → Chars → List (String × Chars) → List (String × Chars)
unfolding comes_first
insert_part k s [] = (k, s) ∷ []
insert_part k s ((j, t) ∷ rest) =
    let inserted = insert_part k s rest in
    if comes_first j k then (j, t) ∷ inserted else (k, s) ∷ (j, t) ∷ rest

unfoldable pub key_parts : List (String × Chars) → List Chars
unfolding quote_json_string
key_parts [] = []
key_parts ((k, s) ∷ rest) = (quote_json_string k ++ (":" ∷ s)) ∷ key_parts rest

unfoldable mutual
  pub canonical : Json → Chars
  canonical null = null_word
  canonical (bool true) = true_word
  canonical (bool false) = false_word
  canonical (num n) = decimal n
  canonical (str s) = quote_json_string s
  canonical (arr xs) = "[" ∷ (join_parts (canonical_items xs) ++ ("]" ∷ []))
  canonical (obj fs) = "{" ∷ (join_parts (key_parts (canonical_fields fs)) ++ ("}" ∷ []))

  pub canonical_items : Items → List Chars
  canonical_items nil = []
  canonical_items (cons v xs) = canonical v ∷ canonical_items xs

  pub canonical_fields : Fields → List (String × Chars)
  canonical_fields end = []
  canonical_fields (field k v fs) = insert_part k (canonical v) (canonical_fields fs)

unfoldable pub canonical_json : Json → String
unfolding canonical
canonical_json v = of_list (canonical v)
