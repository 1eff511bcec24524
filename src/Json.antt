-- ===== src/Json.antt =====
-- The values of the wire and of the signed bodies (agent payloads, proofs and receipts are Python
-- dicts that `json` reads and prints).
pub mod Equality
pub mod Keys
use agent_delegation_network.Prelude.{
  Bool, List, Option, String, [], false, if◌then◌else◌, leb, none, some, true, ℕ, ◌&&◌, ◌==◌, ◌∷◌,
}

-- A number is a natural: counters, and times in microseconds.
mutual
  pub data Json : Type 0 where
    null : Json
    bool : Bool → Json
    num : ℕ → Json
    str : String → Json
    arr : Items → Json
    obj : Fields → Json

  pub data Items : Type 0 where
    nil : Items
    cons : Json → Items → Items

  pub data Fields : Type 0 where
    end : Fields
    field : String → Json → Fields → Fields

-- `d.get(k)` with the missing key told apart from `None`.
unfoldable pub find : String → Fields → Option Json
find k end = none
find k (field j v fs) = if j == k then some v else find k fs

-- `d.get(k, default)`
unfoldable pub get_or : Json → String → Fields → Json
unfolding find
get_or d k fs = elim (find k fs) [ none ↦ d | some v ↦ v ]

-- `d.get(k)`
unfoldable pub get : String → Fields → Json
unfolding get_or
get = get_or null

-- `k in d`
unfoldable pub has : String → Fields → Bool
unfolding find
has k fs = elim (find k fs) [ none ↦ false | some _ ↦ true ]

-- `{**fs, **gs}` where the keys of the two are distinct
unfoldable pub append : Fields → Fields → Fields
append end gs = gs
append (field k v fs) gs = field k v (append fs gs)

-- Python's truth of a value.
unfoldable pub truthy : Json → Bool
truthy null = false
truthy (bool b) = b
truthy (num n) = leb 1 n
truthy (str s) = if s == "" then false else true
truthy (arr nil) = false
truthy (arr (cons _ _)) = true
truthy (obj end) = false
truthy (obj (field _ _ _)) = true

-- `v == s` against a text.
unfoldable pub is_str : String → Json → Bool
is_str s (str t) = t == s
is_str s _ = false

-- An optional text as JSON has it.
abbrev pub opt_str : Option String → Json
opt_str none = null
opt_str (some s) = str s

-- `{k: d.get(k) for k in keys}`
unfoldable pub pick : List String → Fields → Fields
unfolding get
pick [] fs = end
pick (k ∷ ks) fs = field k (get k fs) (pick ks fs)

-- Every key is in the dict.
unfoldable pub has_all : List String → Fields → Bool
unfolding has
has_all [] fs = true
has_all (k ∷ ks) fs = has k fs && has_all ks fs

-- `v or d`
abbrev pub or_else : Json → Json → Json
or_else d v = if truthy v then v else d
