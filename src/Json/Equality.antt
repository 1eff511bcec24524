-- ===== src/Json/Equality.antt =====
-- Python's `==` on the values of the wire: `True == 1`, and dicts are compared without order.
use agent_delegation_network.Json.{
  Fields, Items, Json, arr, bool, cons, end, field, find, is_str, nil, null, num, obj, str,
}
use agent_delegation_network.Prelude.{
  Bool, Option, String, ap, eq_iff, eq_refl, false, if◌then◌else◌, leb, none, some, suc, sym, true,
  ℕ, ◌&&◌, ◌≡◌,
}

-- How many keys a dict has.
unfoldable pub size : Fields → ℕ
size end = 0
size (field k v fs) = suc (size fs)

abbrev pub as_number : Json → Option ℕ
as_number (bool true) = some 1
as_number (bool false) = some 0
as_number (num n) = some n
as_number _ = none

abbrev pub same_number : ℕ → ℕ → Bool
same_number a b = leb a b && leb b a

abbrev pub is_number : ℕ → Json → Bool
is_number n v = elim (as_number v) [ none ↦ false | some m ↦ same_number n m ]

abbrev pub is_null : Json → Bool
is_null null = true
is_null _ = false

unfoldable mutual
  pub py_eq : Json → Json → Bool
  py_eq null w = is_null w
  py_eq (bool b) w = is_number (if b then 1 else 0) w
  py_eq (num n) w = is_number n w
  py_eq (str s) w = is_str s w
  py_eq (arr xs) (arr ys) = items_eq xs ys
  py_eq (arr xs) _ = false
  py_eq (obj fs) (obj gs) = same_number (size fs) (size gs) && fields_in fs gs
  py_eq (obj fs) _ = false

  pub items_eq : Items → Items → Bool
  items_eq nil nil = true
  items_eq nil (cons _ _) = false
  items_eq (cons _ _) nil = false
  items_eq (cons x xs) (cons y ys) = py_eq x y && items_eq xs ys

  pub fields_in : Fields → Fields → Bool
  fields_in end gs = true
  fields_in (field k v fs) gs =
      elim (find k gs) [ none ↦ false | some w ↦ py_eq v w ] && fields_in fs gs

pub is_str→eq : (s : String) (v : Json) → is_str s v ≡ true → v ≡ str s
unfolding is_str
is_str→eq s (str t) h = ap str ((eq_iff t s).0 h)
is_str→eq s null h = cc
is_str→eq s (bool b) h = cc
is_str→eq s (num n) h = cc
is_str→eq s (arr xs) h = cc
is_str→eq s (obj fs) h = cc

pub is_str_self : (s : String) → is_str s (str s) ≡ true
unfolding is_str
is_str_self s = eq_refl s

-- A value that equals a text is that text.
pub py_eq-str : (v : Json) (s : String) → py_eq v (str s) ≡ true → v ≡ str s
unfolding py_eq is_str
py_eq-str (str t) s h = ap str (sym ((eq_iff s t).0 h))
py_eq-str null s h = cc
py_eq-str (bool b) s h = cc
py_eq-str (num n) s h = cc
py_eq-str (arr xs) s h = cc
py_eq-str (obj fs) s h = cc

pub py_eq-str_self : (s : String) → py_eq (str s) (str s) ≡ true
unfolding py_eq
py_eq-str_self s = is_str_self s
