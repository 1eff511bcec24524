-- ===== src/Json/Keys.antt =====
-- Values of the wire as keys of Python's dicts and sets: a list or a dict cannot be hashed, and a
-- Boolean is the number that it equals.
use agent_delegation_network.Json.{Json, arr, bool, null, num, obj, str}
use agent_delegation_network.Json.Equality.{same_number}
use agent_delegation_network.Prelude.{
  Bool, List, Option, Result, String, [], ap, arith, eq_iff, false, if◌then◌else◌, none, ok, raised,
  refl, some, true, type_error, ℕ, ◌==◌, ◌↔◌, ◌∷◌, ◌≡◌,
}

pub data Key : Type 0 where
  nothing : Key
  text : String → Key
  number : ℕ → Key

unfoldable pub same_key : Key → Key → Bool
same_key nothing nothing = true
same_key (text a) (text b) = a == b
same_key (number a) (number b) = same_number a b
same_key _ _ = false

unfoldable pub hash_key : Json → Result Key
hash_key null = ok nothing
hash_key (bool true) = ok (number 1)
hash_key (bool false) = ok (number 0)
hash_key (num n) = ok (number n)
hash_key (str s) = ok (text s)
hash_key (arr _) = raised (type_error "unhashable type")
hash_key (obj _) = raised (type_error "unhashable type")

-- A dict in insertion order.
abbrev pub KeyDict : Type 0 → Type 0
KeyDict V = List (Key × V)

module _ {V : Type 0} where
  unfoldable pub key_lookup : Key → KeyDict V → Option V
  key_lookup k [] = none
  key_lookup k ((j, v) ∷ d) = if same_key j k then some v else key_lookup k d

  unfoldable pub key_insert : Key → V → KeyDict V → KeyDict V
  key_insert k v [] = (k, v) ∷ []
  key_insert k v ((j, w) ∷ d) = if same_key j k then (j, v) ∷ d else (j, w) ∷ key_insert k v d

pub same_key_iff : (a b : Key) → (same_key a b ≡ true) ↔ (a ≡ b)
unfolding same_key
same_key_iff nothing nothing = (λ h. refl, λ h. refl)
same_key_iff nothing (text b) = (λ h. cc, λ h. cc)
same_key_iff nothing (number b) = (λ h. cc, λ h. cc)
same_key_iff (text a) nothing = (λ h. cc, λ h. cc)
same_key_iff (text a) (text b) =
    ((λ h. ap text ((eq_iff a b).0 h)), (λ h. (eq_iff a b).1 (ground arith)))
same_key_iff (text a) (number b) = (λ h. cc, λ h. cc)
same_key_iff (number a) nothing = (λ h. cc, λ h. cc)
same_key_iff (number a) (text b) = (λ h. cc, λ h. cc)
same_key_iff (number a) (number b) = (λ h. ap number (ground arith), λ h. ground arith)

pub key_lookup-key_insert :
    {V : Type 0} (k j : Key) (v : V) (d : KeyDict V)
    → key_lookup j (key_insert k v d) ≡ (if same_key k j then some v else key_lookup j d)
unfolding key_lookup key_insert
key_lookup-key_insert k j v [] = refl
key_lookup-key_insert k j v ((i, w) ∷ d) =
    ground
      (arith, same_key_iff k j, same_key_iff i k, same_key_iff i j, key_lookup-key_insert k j v d)
