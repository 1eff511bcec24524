-- ===== src/Release/Reader/Numbers.antt =====
-- Decimal numbers, read back (scripts/verify_release.py).
use Prim.Native.Char.{Char, code}
use Prim.Native.Nat.{◌/◌, ◌%◌}
use agent_delegation_network.Prelude.{
  Bool, [], arith, false, if◌then◌else◌, leb, ltb, refl, suc, true, zero, ℕ, ◌&&◌, ◌*◌, ◌++◌, ◌+◌,
  ◌-◌, ◌<◌, ◌∙◌, ◌∷◌, ◌≡◌,
}
use agent_delegation_network.Release.Canonical.{Chars}
use agent_delegation_network.Text.Characters.{chr, code-chr}
use agent_delegation_network.Text.Strings.{decimal, digits_before}

abbrev pub is_decimal_digit : Char → Bool
is_decimal_digit c = leb 48 (code c) && leb (code c) 57

abbrev pub starts_digit : Chars → Bool
starts_digit [] = false
starts_digit (c ∷ s) = is_decimal_digit c

-- The number that leading digits spell behind `n`, and what follows them.
unfoldable pub read_number : ℕ → Chars → ℕ × Chars
read_number n [] = (n, [])
read_number n (c ∷ s) =
    let longer = read_number (n * 10 + (code c - 48)) s in
    if is_decimal_digit c then longer else (n, c ∷ s)

read_digit :
    (n d : ℕ) (s : Chars) → d < 10 → read_number n (chr (48 + d) ∷ s) ≡ read_number (n * 10 + d) s
unfolding read_number
read_digit n d s h = ground (arith, code-chr (48 + d) (omega arith))

starts_chr : (d : ℕ) (s : Chars) → d < 10 → starts_digit (chr (48 + d) ∷ s) ≡ true
starts_chr d s h = ground (arith, code-chr (48 + d) (omega arith))

digits_before_step :
    (f n : ℕ) (out : Chars)
    → digits_before (suc f) n out ≡ (
        if ltb n 10 then chr (48 + n) ∷ out else digits_before f (n / 10) (chr (48 + n % 10) ∷ out))
unfolding digits_before
digits_before_step f n out = ground arith

read_number-digits_before :
    (f n : ℕ) (out rest : Chars)
    → n < f
    → read_number 0 (digits_before f n out ++ rest) ≡ read_number n (out ++ rest)
read_number-digits_before zero n out rest h = absurd (omega arith)
read_number-digits_before (suc f) n out rest h = ground (
  arith,
  digits_before_step f n out,
  read_digit 0 n (out ++ rest),
  read_number-digits_before f (n / 10) (chr (48 + n % 10) ∷ out) rest,
  read_digit (n / 10) (n % 10) (out ++ rest),
)

digits_before-starts_digit :
    (f n : ℕ) (out rest : Chars) → n < f → starts_digit (digits_before f n out ++ rest) ≡ true
digits_before-starts_digit zero n out rest h = absurd (omega arith)
digits_before-starts_digit (suc f) n out rest h = ground (
  arith,
  digits_before_step f n out,
  starts_chr n (out ++ rest),
  digits_before-starts_digit f (n / 10) (chr (48 + n % 10) ∷ out) rest,
)

stop_reading : (n : ℕ) (rest : Chars) → starts_digit rest ≡ false → read_number n rest ≡ (n, rest)
unfolding read_number
stop_reading n [] h = refl
stop_reading n (c ∷ s) h = ground arith

-- A printed number is read back where no digit follows it.
pub read_number-decimal :
    (n : ℕ) (rest : Chars)
    → starts_digit rest ≡ false
    → read_number 0 (decimal n ++ rest) ≡ (n, rest)
unfolding decimal
read_number-decimal n rest h =
    read_number-digits_before (suc n) n [] rest (omega arith) ∙ stop_reading n rest h

pub decimal-starts_digit : (n : ℕ) (rest : Chars) → starts_digit (decimal n ++ rest) ≡ true
unfolding decimal
decimal-starts_digit n rest = digits_before-starts_digit (suc n) n [] rest (omega arith)
