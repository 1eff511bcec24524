-- ===== src/Text/Strings.antt =====
-- The methods of Python's `str` that the release scripts use.
use Prim.Native.Char.{Char, code}
use Prim.Native.Nat.{compare, Ordering, ◌/◌, ◌%◌}
use text.Mathlib.TextBridge.{of_list}
-- `s + t`
use agent_delegation_network.Json.{Json, arr, bool, null, num, obj, str}
use agent_delegation_network.Prelude.{
  Bool, List, Option, String, [], ap, false, if◌then◌else◌, leb, length, map, none, refl, reverse,
  some, suc, true, zero, ℕ, ◌&&◌, ◌+◌, ◌||◌, ◌∷◌, ◌≡◌,
}
use agent_delegation_network.RuntimeSecurity.Mode.{is_space}
use agent_delegation_network.Text.Characters.{chr, same_char}

unfoldable pub concat_text : String → String → String
concat_text String.[] t = t
concat_text (String.◌∷◌ x s) t = String.◌∷◌ x (concat_text s t)

-- The characters of a text.
unfoldable pub characters : String → List Char
characters String.[] = []
characters (String.◌∷◌ x s) = x ∷ characters s

pub characters-of_list : (l : List Char) → characters (of_list l) ≡ l
unfolding characters
characters-of_list [] = refl
characters-of_list (x ∷ l) = ap (λ m. x ∷ m) (characters-of_list l)

pub of_list-characters : (s : String) → of_list (characters s) ≡ s
unfolding characters
of_list-characters String.[] = refl
of_list-characters (String.◌∷◌ x s) = ap (λ t. String.◌∷◌ x t) (of_list-characters s)

-- The pieces of an f-string, one after the other.
unfoldable pub concat : List String → String
unfolding concat_text
concat [] = String.[]
concat (s ∷ rest) = concat_text s (concat rest)

-- `", ".join(names)`
unfoldable pub join_names : List String → String
unfolding concat_text
join_names [] = String.[]
join_names (s ∷ []) = s
join_names (s ∷ t ∷ rest) = concat_text s (concat_text ", " (join_names (t ∷ rest)))

-- `s.startswith(prefix)`
unfoldable pub starts_with : String → String → Bool
starts_with String.[] s = true
starts_with (String.◌∷◌ a p) String.[] = false
starts_with (String.◌∷◌ a p) (String.◌∷◌ b s) = same_char a b && starts_with p s

-- `s[len(prefix):]` where the prefix is there, as `removeprefix` and `find?` use it
unfoldable pub after_prefix : String → String → Option String
after_prefix String.[] s = some s
after_prefix (String.◌∷◌ a p) String.[] = none
after_prefix (String.◌∷◌ a p) (String.◌∷◌ b s) = if same_char a b then after_prefix p s else none

unfoldable pub all_chars : (Char → Bool) → List Char → Bool
all_chars p [] = true
all_chars p (c ∷ s) = p c && all_chars p s

-- `[0-9a-f]`
unfoldable pub is_hex : Char → Bool
is_hex c = (leb 48 (code c) && leb (code c) 57) || (leb 97 (code c) && leb (code c) 102)

-- `re.fullmatch("[0-9a-f]{n}", s)`
unfoldable pub is_hex_text : ℕ → String → Bool
unfolding all_chars is_hex
is_hex_text n s =
    leb n (length (characters s))
    && leb (length (characters s)) n
    && all_chars is_hex (characters s)

unfoldable pub drop_spaces : List Char → List Char
unfolding is_space
drop_spaces [] = []
drop_spaces (c ∷ s) = let rest = drop_spaces s in if is_space (code c) then rest else c ∷ s

-- `str.lower` of one character. The results are compared with ASCII texts and decoded as hexadecimal,
-- and no other character has an ASCII letter for its lower case but the Kelvin sign, which is no
-- hexadecimal digit; so the others stay.
unfoldable pub lower_char : Char → Char
unfolding chr
lower_char c = if leb 65 (code c) && leb (code c) 90 then chr (code c + 32) else c

-- `s.strip()`
unfoldable pub strip_text : String → String
unfolding drop_spaces
strip_text s = of_list (reverse (drop_spaces (reverse (drop_spaces (characters s)))))

-- `s.lower()`
unfoldable pub lower_text : String → String
unfolding lower_char
lower_text s = of_list (map lower_char (characters s))

-- `s.strip().lower()`
unfoldable pub strip_lower : String → String
unfolding strip_text lower_text
strip_lower s = lower_text (strip_text s)

-- `str(n)`: the digits of a number before `out`. A number below the fuel has fewer digits than that.
unfoldable pub digits_before : ℕ → ℕ → List Char → List Char
unfolding chr
digits_before zero n out = out
digits_before (suc f) n out = elim (compare n 10) [
  | Ordering.lt ↦ chr (48 + n) ∷ out
  | _ ↦ digits_before f (n / 10) (chr (48 + n % 10) ∷ out)
]

unfoldable pub decimal : ℕ → List Char
unfolding digits_before
decimal n = digits_before (suc n) n []

-- `str(v)` of a JSON value; `repr` prints a list or a dict.
abbrev pub str_of : (Json → String) → Json → String
str_of repr null = "None"
str_of repr (bool true) = "True"
str_of repr (bool false) = "False"
str_of repr (num n) = of_list (decimal n)
str_of repr (str s) = s
str_of repr (arr xs) = repr (arr xs)
str_of repr (obj fs) = repr (obj fs)
