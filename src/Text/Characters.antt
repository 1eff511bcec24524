-- ===== src/Text/Characters.antt =====
-- Characters by their code points.
use Prim.Native.Char.{Char, code, char, nul}
use Prim.Native.Nat.{compare, Ordering}
use text.Mathlib.TextEquality.{Char-path}
use agent_delegation_network.Prelude.{Bool, arith, leb, refl, ℕ, ◌&&◌, ◌<◌, ◌≡◌}

-- `chr(n)` below the surrogates, which is all that the program builds
chr_if : (n : ℕ) (o : Ordering) → compare n 55296 ≡ o → Char
chr_if n Ordering.lt e = char n (rw e tt)
chr_if n Ordering.eq e = nul
chr_if n Ordering.gt e = nul

unfoldable pub chr : ℕ → Char
unfolding chr_if
chr n = chr_if n (compare n 55296) refl

code-chr_if : (n : ℕ) (o : Ordering) (e : compare n 55296 ≡ o) → n < 55296 → code (chr_if n o e) ≡ n
unfolding chr_if
code-chr_if n Ordering.lt e h = refl
code-chr_if n Ordering.eq e h = absurd (ground arith)
code-chr_if n Ordering.gt e h = absurd (ground arith)

pub code-chr : (n : ℕ) → n < 55296 → code (chr n) ≡ n
unfolding chr
code-chr n h = code-chr_if n (compare n 55296) refl h

-- A character is the one of its code point.
pub chr-code : (c : Char) → code c < 55296 → chr (code c) ≡ c
chr-code c h = Char-path (chr (code c)) c (code-chr (code c) h)

abbrev pub same_char : Char → Char → Bool
same_char a b = leb (code a) (code b) && leb (code b) (code a)
