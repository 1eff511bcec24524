-- ===== src/Release/Reader/Values.antt =====
-- Canonical JSON is read back (scripts/verify_release.py).
use Prim.Native.Char.{Char}
use text.Mathlib.TextBridge.{of_list}
use agent_delegation_network.Json.{
  Fields, Items, Json, arr, bool, cons, end, field, nil, null, num, obj, str,
}
use agent_delegation_network.Prelude.{
  Bool, Option, [], false, if◌then◌else◌, none, some, suc, true, zero, ℕ, ◌+◌, ◌∷◌,
}
use agent_delegation_network.Release.Canonical.{Chars, false_word, null_word, quote_mark, true_word}
use agent_delegation_network.Release.Reader.Numbers.{read_number, starts_digit}
use agent_delegation_network.Release.Reader.Texts.{plain, read_text}
use agent_delegation_network.Text.Characters.{same_char}

abbrev pub Read : Type 0 → Type 0
Read A = Option (A × Chars)

infixl 3 ◌>>>◌
abbrev pub ◌>>>◌ {ℓ κ} : {A : Type ℓ} {B : Type κ} → Option A → (A → Option B) → Option B
none >>> next = none
some a >>> next = next a

unfoldable pub skip : Chars → Chars → Option Chars
skip [] s = some s
skip (a ∷ w) [] = none
skip (a ∷ w) (b ∷ s) = if same_char a b then skip w s else none

unfoldable pub starts_char : Char → Chars → Bool
starts_char a [] = false
starts_char a (c ∷ s) = same_char a c

abbrev pub rest_of : Chars → Chars
rest_of [] = []
rest_of (c ∷ s) = s

-- The words; they differ in their first characters.
unfoldable pub read_word : Chars → Read Json
unfolding skip starts_char
read_word s =
    if starts_char "n" s
    then skip null_word s >>> (λ rest. some (null, rest))
    else if starts_char "t" s
    then skip true_word s >>> (λ rest. some (bool true, rest))
    else skip false_word s >>> (λ rest. some (bool false, rest))

-- Each call costs a unit of fuel.
unfoldable mutual
  pub read_value : ℕ → Chars → Read Json
  read_value zero s = none
  read_value (suc f) s =
      let items = read_items f (rest_of s) in
      let fields = read_fields f (rest_of s) in
      if starts_digit s
      then some (num ((read_number 0 s).0), (read_number 0 s).1)
      else if starts_char quote_mark s
      then read_text plain (rest_of s) >>> (λ (t, rest). some (str (of_list t), rest))
      else if starts_char "[" s
      then items >>> (λ (xs, rest). some (arr xs, rest))
      else if starts_char "{" s
      then fields >>> (λ (fs, rest). some (obj fs, rest))
      else read_word s

  pub read_items : ℕ → Chars → Read Items
  read_items zero s = none
  read_items (suc f) s =
      let first =
        read_value f s >>> (λ (v, t). read_more f t >>> (λ (xs, u). some (cons v xs, u))) in
      if starts_char "]" s then some (nil, rest_of s) else first

  pub read_more : ℕ → Chars → Read Items
  read_more zero s = none
  read_more (suc f) s =
      let next =
        read_value f (rest_of s)
        >>> (λ (v, t). read_more f t >>> (λ (xs, u). some (cons v xs, u))) in
      if starts_char "]" s then some (nil, rest_of s) else next

  pub read_fields : ℕ → Chars → Read Fields
  read_fields zero s = none
  read_fields (suc f) s =
      let first = read_pair f s in if starts_char "}" s then some (end, rest_of s) else first

  pub read_more_fields : ℕ → Chars → Read Fields
  read_more_fields zero s = none
  read_more_fields (suc f) s =
      let next = read_pair f (rest_of s) in
      if starts_char "}" s then some (end, rest_of s) else next

  pub read_pair : ℕ → Chars → Read Fields
  read_pair zero s = none
  read_pair (suc f) s = read_text plain (rest_of s) >>> (λ (k, t).
      read_value f (rest_of t)
      >>> (λ (v, u). read_more_fields f u >>> (λ (fs, w). some (field (of_list k) v fs, w))))

-- How much fuel a value needs.
abbrev mutual
  pub weight : Json → ℕ
  weight (arr xs) = suc (weight_items xs)
  weight (obj fs) = suc (weight_fields fs)
  weight _ = 1

  pub weight_items : Items → ℕ
  weight_items nil = 1
  weight_items (cons v xs) = suc (weight v + weight_items xs)

  pub weight_fields : Fields → ℕ
  weight_fields end = 1
  weight_fields (field k v fs) = 2 + (weight v + weight_fields fs)
