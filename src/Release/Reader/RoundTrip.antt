-- ===== src/Release/Reader/RoundTrip.antt =====
-- A printed value is read back (scripts/verify_release.py).
use Prim.Native.Char.{Char}
use mathlib.Core.List.{append_assoc, append-nil}
use agent_delegation_network.Json.{
  Fields, Items, Json, arr, bool, cons, end, field, nil, null, num, obj, str,
}
use agent_delegation_network.Prelude.{
  List, String, [], ap, arith, false, refl, some, subst, suc, sym, true, zero, ℕ, ◌++◌, ◌+◌, ◌<◌,
  ◌∙◌, ◌∷◌, ◌≡◌, ◌≤◌,
}
use agent_delegation_network.Release.Canonical.{
  Chars, escape_text, join_more, join_parts, quote_json_string,
}
use agent_delegation_network.Release.Printed.{print, print_fields, print_items}
use agent_delegation_network.Release.Reader.Numbers.{
  decimal-starts_digit, read_number, read_number-decimal, starts_digit,
}
use agent_delegation_network.Release.Reader.Texts.{read_text-quote}
use agent_delegation_network.Release.Reader.Values.{
  Read, read_fields, read_items, read_more, read_more_fields, read_pair, read_value, read_word,
  skip, starts_char, weight, weight_fields, weight_items,
}
use agent_delegation_network.Text.Strings.{characters, decimal, of_list-characters}

-- What is above a bound is a successor.
on_successor {ℓ} :
    {least : ℕ} (Goal : ℕ → Type ℓ)
    → ((left : ℕ) → least ≤ left → Goal (suc left))
    → (fuel : ℕ) → least < fuel
    → Goal fuel
on_successor Goal step (suc left) enough = step left (omega arith)
on_successor Goal step zero enough = absurd (omega arith)

-- With enough fuel `read` takes `a` off its print, where no digit follows.
abbrev ReadsOff : {A : Type 0} → (ℕ → Chars → Read A) → ℕ → Chars → A → Type 0
ReadsOff read bound printed a =
    (rest : Chars)
    → starts_digit rest ≡ false
    → (f : ℕ) → bound < f
    → read f (printed ++ rest) ≡ some (a, rest)

abbrev ReadsValue : Json → Type 0
ReadsValue v = ReadsOff read_value (weight v) (print v) v

abbrev ReadsMore : Items → Type 0
ReadsMore xs = ReadsOff read_more (weight_items xs) (join_more (print_items xs) ++ ("]" ∷ [])) xs

abbrev ReadsItems : Items → Type 0
ReadsItems xs =
    ReadsOff read_items (weight_items xs) (join_parts (print_items xs) ++ ("]" ∷ [])) xs
    × ReadsMore xs

abbrev ReadsMoreFields : Fields → Type 0
ReadsMoreFields fs =
    ReadsOff read_more_fields (weight_fields fs) (join_more (print_fields fs) ++ ("}" ∷ [])) fs

abbrev ReadsFields : Fields → Type 0
ReadsFields fs =
    ReadsOff read_fields (weight_fields fs) (join_parts (print_fields fs) ++ ("}" ∷ [])) fs
    × ReadsMoreFields fs

read_value-digit :
    (f : ℕ) (s : Chars)
    → starts_digit s ≡ true
    → read_value (suc f) s ≡ some (num ((read_number 0 s).0), (read_number 0 s).1)
unfolding read_value
read_value-digit f s h = rw h refl

more_no_digit :
    (parts : List Chars) (rest : Chars) (close : Char)
    → starts_digit (close ∷ []) ≡ false
    → starts_digit ((join_more parts ++ (close ∷ [])) ++ rest) ≡ false
unfolding join_more
more_no_digit [] rest close h = h
more_no_digit (p ∷ parts) rest close h = refl

no_bracket : (s : Chars) → starts_digit s ≡ true → starts_char "]" s ≡ false
unfolding starts_char
no_bracket [] h = refl
no_bracket (c ∷ s) h = ground arith

-- A printed value does not look like a closing bracket.
starts-print : (v : Json) (rest : Chars) → starts_char "]" (print v ++ rest) ≡ false
unfolding print starts_char quote_json_string
starts-print (num n) rest = no_bracket (decimal n ++ rest) (decimal-starts_digit n rest)
starts-print null rest = refl
starts-print (bool true) rest = refl
starts-print (bool false) rest = refl
starts-print (str s) rest = refl
starts-print (arr xs) rest = refl
starts-print (obj fs) rest = refl

regroup : (a b c d : Chars) → ((a ++ b) ++ c) ++ d ≡ a ++ ((b ++ c) ++ d)
regroup a b c d = simp append_assoc

regroup_pair :
    (key value more close rest : Chars)
    → (((key ++ (":" ∷ value)) ++ more) ++ close) ++ rest
      ≡ key ++ (":" ∷ (value ++ ((more ++ close) ++ rest)))
regroup_pair key value more close rest = simp append_assoc

module _ (w : Json) (read_w : ReadsValue w) where
  read_items-cons :
      (xs : Items)
      → ReadsMore xs
      → ReadsOff read_items
          (weight_items (cons w xs))
          (join_parts (print_items (cons w xs)) ++ ("]" ∷ []))
          (cons w xs)
  unfolding read_value print join_parts
  read_items-cons xs read_xs rest quiet = on_successor _ λ f h.
      let tail = (join_more (print_items xs) ++ ("]" ∷ [])) ++ rest in
      rw
        (
          regroup (print w) (join_more (print_items xs)) ("]" ∷ []) rest,
          starts-print w tail,
          read_w tail (more_no_digit (print_items xs) rest "]" refl) f (omega arith),
          read_xs rest quiet f (omega arith),
        )
        refl

  read_more-cons :
      (xs : Items)
      → ReadsMore xs
      → ReadsOff read_more
          (weight_items (cons w xs))
          (join_more (print_items (cons w xs)) ++ ("]" ∷ []))
          (cons w xs)
  unfolding read_value print join_more starts_char
  read_more-cons xs read_xs rest quiet = on_successor _ λ f h.
      let tail = (join_more (print_items xs) ++ ("]" ∷ [])) ++ rest in
      rw
        (
          regroup (print w) (join_more (print_items xs)) ("]" ∷ []) rest,
          read_w tail (more_no_digit (print_items xs) rest "]" refl) f (omega arith),
          read_xs rest quiet f (omega arith),
        )
        refl

  read_pair-field :
      (k : String) (fs : Fields)
      → ReadsMoreFields fs
      → (rest : Chars) → starts_digit rest ≡ false
      → (f : ℕ) → suc (weight w + weight_fields fs) < f
      → read_pair f (
          ((((quote_json_string k ++ (":" ∷ print w)) ++ join_more (print_fields fs))
            ++ ("}" ∷ [])))
          ++ rest)
        ≡ some (field k w fs, rest)
  unfolding read_value quote_json_string
  read_pair-field k fs read_fs rest quiet = on_successor _ λ f h.
      let tail = (join_more (print_fields fs) ++ ("}" ∷ [])) ++ rest in
      rw
        (
          regroup_pair (escape_text (characters k)) (print w) (join_more (print_fields fs))
              ("}" ∷ []) rest,
          read_text-quote k (":" ∷ (print w ++ tail)),
          read_w tail (more_no_digit (print_fields fs) rest "}" refl) f (omega arith),
          read_fs rest quiet f (omega arith),
          of_list-characters k,
        )
        refl

read_value-num :
    (n : ℕ) (f : ℕ) (rest : Chars)
    → starts_digit rest ≡ false
    → read_value (suc f) (decimal n ++ rest) ≡ some (num n, rest)
read_value-num n f rest h =
    read_value-digit f (decimal n ++ rest) (decimal-starts_digit n rest)
    ∙ ap (λ r. some (num (r.0), r.1)) (read_number-decimal n rest h)

reads_value : (v : Json) → ReadsValue v
unfolding read_value read_word starts_char skip print join_parts join_more quote_json_string
reads_value v = elim v as ReadsValue ReadsItems ReadsFields [
  | null ↦ λ rest quiet. on_successor _ λ f h. refl
  | bool true ↦ λ rest quiet. on_successor _ λ f h. refl
  | bool false ↦ λ rest quiet. on_successor _ λ f h. refl
  | num n ↦ λ rest quiet. on_successor _ λ f h. read_value-num n f rest quiet
  | str s ↦
      λ rest quiet. on_successor _ λ f h. rw (read_text-quote s rest, of_list-characters s) refl
  | arr (xs → ih) ↦ λ rest quiet. on_successor _ λ f h. rw (ih.0 rest quiet f (omega arith)) refl
  | obj (fs → ih) ↦ λ rest quiet. on_successor _ λ f h. rw (ih.0 rest quiet f (omega arith)) refl
  | nil ↦ (λ rest quiet. on_successor _ λ f h. refl, λ rest quiet. on_successor _ λ f h. refl)
  | cons (w → ih) (xs → ihs) ↦ (read_items-cons w ih xs (ihs.1), read_more-cons w ih xs (ihs.1))
  | end ↦ (λ rest quiet. on_successor _ λ f h. refl, λ rest quiet. on_successor _ λ f h. refl)
  | field k (w → ih) (fs → ihs) ↦ (
    λ rest quiet.
        on_successor _ λ f h. read_pair-field w ih k fs (ihs.1) rest quiet f (omega arith),
    λ rest quiet.
        on_successor _ λ f h. read_pair-field w ih k fs (ihs.1) rest quiet f (omega arith),
  )
]

-- A printed value is read back, given more fuel than it has parts.
read_value-print : (v : Json) (f : ℕ) → weight v < f → read_value f (print v) ≡ some (v, [])
read_value-print v f h =
    subst (λ s. read_value f s ≡ some (v, [])) (append-nil (print v)) (reads_value v [] refl f h)

abbrev fully_read : Json → Read Json
fully_read v = some (v, [])

read_once : (v w : Json) → fully_read v ≡ fully_read w → v ≡ w
read_once v w e = cc

-- No two values print alike.
pub print-injective : (v w : Json) → print v ≡ print w → v ≡ w
print-injective v w e =
    let f = suc (weight v + weight w) in
    read_once v w (
      sym (read_value-print v f (omega arith))
      ∙ (ap (λ s. read_value f s) e ∙ read_value-print w f (omega arith)))
