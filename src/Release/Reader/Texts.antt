-- ===== src/Release/Reader/Texts.antt =====
-- Quoted texts, read back (scripts/verify_release.py).
use Prim.Native.Char.{Char, code}
use Prim.Native.Nat.{◌/◌, ◌%◌}
use text.Mathlib.TextEquality.{Char-path}
use mathlib.Core.List.{append_assoc}
use agent_delegation_network.Prelude.{
  Option, String, [], ap, arith, if◌then◌else◌, leb, none, refl, some, suc, sym, zero, ℕ, ◌*◌, ◌++◌,
  ◌+◌, ◌-◌, ◌<◌, ◌∙◌, ◌∷◌, ◌≡◌,
}
use agent_delegation_network.Release.Canonical.{
  Chars, backslash, escape_text, escaped, hex_digit, quote_mark,
}
use agent_delegation_network.Text.Characters.{chr, code-chr, same_char}
use agent_delegation_network.Text.Strings.{characters}

-- What the next character is read as.
pub data Mode : Type 0 where
  plain escaping : Mode
  hexes : ℕ → ℕ → Mode

unfoldable pub hex_value : Char → ℕ
hex_value c = if leb (code c) 57 then code c - 48 else code c - 87

-- The character that a backslash and this one stand for.
unfoldable pub revealed : Char → Char
unfolding chr
revealed c =
    if same_char c "b"
    then chr 8
    else if same_char c "t"
    then chr 9
    else if same_char c "n"
    then chr 10
    else if same_char c "f"
    then chr 12
    else if same_char c "r"
    then chr 13
    else c

abbrev pub push : Char → Option (Chars × Chars) → Option (Chars × Chars)
push c none = none
push c (some (s, rest)) = some (c ∷ s, rest)

-- The characters up to the quotation mark, and what follows it.
unfoldable pub read_text : Mode → Chars → Option (Chars × Chars)
unfolding revealed hex_value
read_text mode [] = none
read_text plain (c ∷ s) =
    let escape = read_text escaping s in
    let copy = push c (read_text plain s) in
    if same_char c quote_mark then some ([], s) else if same_char c backslash then escape else copy
read_text escaping (c ∷ s) =
    let digits = read_text (hexes 3 0) s in
    let one = push (revealed c) (read_text plain s) in if same_char c "u" then digits else one
read_text (hexes zero n) (c ∷ s) = push (chr (16 * n + hex_value c)) (read_text plain s)
read_text (hexes (suc k) n) (c ∷ s) = read_text (hexes k (16 * n + hex_value c)) s

hex_value-hex_digit : (n : ℕ) → n < 16 → hex_value (hex_digit n) ≡ n
unfolding hex_value hex_digit
hex_value-hex_digit n h =
    ground (arith, code-chr (48 + n) (omega arith), code-chr (87 + n) (omega arith))

is_chr : (c : Char) (n : ℕ) → n < 55296 → code c ≡ n → chr n ≡ c
is_chr c n h e = Char-path (chr n) c (code-chr n h ∙ sym e)

read_hexes :
    (c : Char) (s : Chars)
    → code c < 32
    → read_text (hexes 3 0) ("0" ∷ "0" ∷ hex_digit (code c / 16) ∷ hex_digit (code c % 16) ∷ s)
      ≡ push c (read_text plain s)
unfolding read_text
read_hexes c s h =
    rw
      (
        hex_value-hex_digit (code c / 16) (omega arith),
        hex_value-hex_digit (code c % 16) (omega arith),
      )
      (ap (λ d. push d (read_text plain s))
        (is_chr c (16 * (16 * 0 + code c / 16) + code c % 16) (omega arith) (omega arith)))

-- An escaped character is read as itself.
read_text-escaped :
    (c : Char) (s : Chars) → read_text plain (escaped c ++ s) ≡ push c (read_text plain s)
unfolding read_text escaped
read_text-escaped c s = ground (
  arith,
  read_hexes c s,
  is_chr c 8 (omega arith),
  is_chr c 9 (omega arith),
  is_chr c 10 (omega arith),
  is_chr c 12 (omega arith),
  is_chr c 13 (omega arith),
  Char-path c backslash,
  Char-path c quote_mark,
)

read_text-escape_text : (s rest : Chars) → read_text plain (escape_text s ++ rest) ≡ some (s, rest)
unfolding escape_text read_text
read_text-escape_text [] rest = refl
read_text-escape_text (c ∷ s) rest =
    rw
      (
        append_assoc (escaped c) (escape_text s) rest,
        read_text-escaped c (escape_text s ++ rest),
        read_text-escape_text s rest,
      )
      refl

-- A quoted text behind its first quotation mark.
pub read_text-quote :
    (s : String) (rest : Chars)
    → read_text plain (escape_text (characters s) ++ rest) ≡ some (characters s, rest)
read_text-quote s rest = read_text-escape_text (characters s) rest
