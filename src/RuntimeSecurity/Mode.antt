-- ===== src/RuntimeSecurity/Mode.antt =====
-- `resolve_runtime_mode` of src/runtime_security.py. A text is the list of its code points.
use Prim.Native.Char.{code}
use agent_delegation_network.Prelude.{
  Bool, Exception, List, Option, Result, String, [], arith, false, if◌then◌else◌, leb, map, none,
  ok, raised, refl, reverse, runtime_error, some, true, ℕ, ◌&&◌, ◌+◌, ◌||◌, ◌∷◌, ◌≡◌,
}

pub data RuntimeMode : Type 0 where
  live demo test : RuntimeMode

abbrev pub codes : String → List ℕ
codes String.[] = []
codes (String.◌∷◌ c s) = code c ∷ codes s

-- `a <= n <= b`
abbrev between : ℕ → ℕ → ℕ → Bool
between a b n = leb a n && leb n b

-- `str.isspace` of one character, over all of Unicode
unfoldable pub is_space : ℕ → Bool
is_space n =
    between 9 13 n
    || between 28 32 n
    || between 133 133 n
    || between 160 160 n
    || between 5760 5760 n
    || between 8192 8202 n
    || between 8232 8233 n
    || between 8239 8239 n
    || between 8287 8287 n
    || between 12288 12288 n

-- `str.lower` of one character. Outside ASCII no character has a lower case that is one of the
-- letters of the three modes, so the others stay.
unfoldable pub to_lower : ℕ → ℕ
to_lower n = if between 65 90 n then n + 32 else n

unfoldable pub strip_left : List ℕ → List ℕ
strip_left [] = []
strip_left (n ∷ s) = let rest = strip_left s in if is_space n then rest else n ∷ s

unfoldable pub strip : List ℕ → List ℕ
unfolding strip_left
strip s = reverse (strip_left (reverse (strip_left s)))

unfoldable pub same_codes : List ℕ → List ℕ → Bool
same_codes [] [] = true
same_codes [] (_ ∷ _) = false
same_codes (_ ∷ _) [] = false
same_codes (a ∷ s) (b ∷ t) = between a a b && same_codes s t

abbrev pub runtime_mode_error : Exception
runtime_mode_error = runtime_error "ADN_RUNTIME_MODE must be live, demo, or test"

unfoldable pub mode_of : List ℕ → Result RuntimeMode
unfolding same_codes
mode_of s =
    if same_codes s (codes "live")
    then ok live
    else if same_codes s (codes "demo")
    then ok demo
    else if same_codes s (codes "test")
    then ok test
    else raised runtime_mode_error

-- `value` is the argument and `env` the variable ADN_RUNTIME_MODE, each of which may be missing.
unfoldable pub resolve_runtime_mode : Option (List ℕ) → Option (List ℕ) → Result RuntimeMode
unfolding mode_of strip to_lower
resolve_runtime_mode (some value) env = mode_of (map to_lower (strip value))
resolve_runtime_mode none (some raw) = mode_of (map to_lower (strip raw))
resolve_runtime_mode none none = ok live

abbrev pub mode_codes : RuntimeMode → List ℕ
mode_codes live = codes "live"
mode_codes demo = codes "demo"
mode_codes test = codes "test"

pub same_codes→eq : (s t : List ℕ) → same_codes s t ≡ true → s ≡ t
unfolding same_codes
same_codes→eq [] [] h = refl
same_codes→eq [] (_ ∷ _) h = cc
same_codes→eq (_ ∷ _) [] h = cc
same_codes→eq (a ∷ s) (b ∷ t) h = ground (arith, same_codes→eq s t)

first_of_three :
    (s : List ℕ) (m : RuntimeMode) → mode_of s ≡ ok m → same_codes s (mode_codes m) ≡ true
unfolding mode_of
first_of_three s live h = ground arith
first_of_three s demo h = ground arith
first_of_three s test h = ground arith

-- A configured value resolves to a mode only if, stripped and in lower case, it is the name of that
-- mode: any other spelling raises.
pub resolve_runtime_mode_sound :
    (raw : List ℕ) (m : RuntimeMode)
    → resolve_runtime_mode none (some raw) ≡ ok m
    → map to_lower (strip raw) ≡ mode_codes m
unfolding resolve_runtime_mode
resolve_runtime_mode_sound raw m h =
    same_codes→eq (map to_lower (strip raw)) (mode_codes m)
      (first_of_three (map to_lower (strip raw)) m h)
