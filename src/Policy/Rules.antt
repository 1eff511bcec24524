-- ===== src/Policy/Rules.antt =====
-- `DelegationPolicy` of src/delegation_policy.py: its tables of sets and their editors.
use agent_delegation_network.Json.{Json}
use agent_delegation_network.Prelude.{
  Bool, List, Option-cases, String, [], arith, contains, eq_iff, if◌then◌else◌, inl, inr, none, not,
  refl, some, ℕ, ◌&&◌, ◌++◌, ◌==◌, ◌||◌, ◌∷◌, ◌≡◌,
}
use agent_delegation_network.Prelude.Dict.{Dict, erase, insert, lookup, lookup-erase, lookup-insert}

-- A Python set of texts, as a list; `s.add(a)` and `s.discard(a)`.
unfoldable pub add : String → List String → List String
add a s = if contains a s then s else s ++ a ∷ []

unfoldable pub discard : String → List String → List String
discard a [] = []
discard a (x ∷ s) = let rest = discard a s in if x == a then rest else x ∷ rest

-- Agent id to set.
abbrev pub Sets : Type 0
Sets = Dict (List String)

pub record DelegationPolicy : Type 0 where
  pub delegation_rules : Sets
  pub agent_trust : Sets
  pub rate_limits : Dict Json
  pub delegation_quotas : Dict ℕ

-- `d.get(k, set())`
unfoldable pub members : String → Sets → List String
members k d = elim (lookup k d) [ none ↦ [] | some s ↦ s ]

-- `if k not in d: d[k] = set()` and `d[k].add(a)`
unfoldable pub add_member : String → String → Sets → Sets
unfolding members
add_member k a d = insert k (add a (members k d)) d

abbrev prune : String → List String → Sets → Sets
prune k [] d = erase k d
prune k (x ∷ s) d = insert k (x ∷ s) d

-- `if k in d: d[k].discard(a)`, and the key goes with the last member
unfoldable pub remove_member : String → String → Sets → Sets
remove_member k a d = elim (lookup k d) [ none ↦ d | some s ↦ prune k (discard a s) d ]

unfoldable pub add_delegation_rule : String → String → DelegationPolicy → DelegationPolicy
add_delegation_rule agent_id action p = record p {
  delegation_rules = add_member agent_id action p.delegation_rules;
}

unfoldable pub remove_delegation_rule : String → String → DelegationPolicy → DelegationPolicy
remove_delegation_rule agent_id action p = record p {
  delegation_rules = remove_member agent_id action p.delegation_rules;
}

unfoldable pub add_trust_relationship : String → String → DelegationPolicy → DelegationPolicy
add_trust_relationship from_agent_id to_agent_id p = record p {
  agent_trust = add_member from_agent_id to_agent_id p.agent_trust;
}

unfoldable pub remove_trust_relationship : String → String → DelegationPolicy → DelegationPolicy
remove_trust_relationship from_agent_id to_agent_id p = record p {
  agent_trust = remove_member from_agent_id to_agent_id p.agent_trust;
}

-- `a` is in the set of `k`.
abbrev pub is_member : String → String → Sets → Bool
is_member k a d = contains a (members k d)

contains-append :
    (a : String) (s t : List String) → contains a (s ++ t) ≡ (contains a s || contains a t)
contains-append a [] t = refl
contains-append a (x ∷ s) t = ground (arith, contains-append a s t)

contains-add : (a b : String) (s : List String) → contains b (add a s) ≡ ((a == b) || contains b s)
unfolding add
contains-add a b s = ground (arith, contains-append b s (a ∷ []), eq_iff a b)

contains-discard :
    (a b : String) (s : List String) → contains b (discard a s) ≡ (not (a == b) && contains b s)
unfolding discard
contains-discard a b [] = ground arith
contains-discard a b (x ∷ s) =
    ground (arith, contains-discard a b s, eq_iff x a, eq_iff x b, eq_iff a b)

members-insert :
    (k j : String) (s : List String) (d : Sets)
    → members j (insert k s d) ≡ (if k == j then s else members j d)
unfolding members
members-insert k j s d = ground (arith, lookup-insert k j s d)

members-erase :
    (k j : String) (d : Sets) → members j (erase k d) ≡ (if k == j then [] else members j d)
unfolding members
members-erase k j d = ground (arith, lookup-erase k j d)

members-absent : (k : String) (d : Sets) → lookup k d ≡ none → members k d ≡ []
unfolding members
members-absent k d e = ground arith

members-present : (k : String) (s : List String) (d : Sets) → lookup k d ≡ some s → members k d ≡ s
unfolding members
members-present k s d e = ground arith

-- An edit of one set changes one membership.
pub is_member-add_member :
    (k a j b : String) (d : Sets)
    → is_member j b (add_member k a d) ≡ ((k == j) && (a == b) || is_member j b d)
unfolding add_member
is_member-add_member k a j b d =
    ground (
      arith,
      members-insert k j (add a (members k d)) d,
      contains-add a b (members k d),
      eq_iff k j,
    )

is_member-prune :
    (k j b : String) (s : List String) (d : Sets)
    → is_member j b (prune k s d) ≡ (if k == j then contains b s else is_member j b d)
is_member-prune k j b [] d = ground (arith, members-erase k j d)
is_member-prune k j b (x ∷ s) d = ground (arith, members-insert k j (x ∷ s) d)

remove_member_absent : (k a : String) (d : Sets) → lookup k d ≡ none → remove_member k a d ≡ d
unfolding remove_member
remove_member_absent k a d e = ground arith

remove_member_present :
    (k a : String) (s : List String) (d : Sets)
    → lookup k d ≡ some s
    → remove_member k a d ≡ prune k (discard a s) d
unfolding remove_member
remove_member_present k a s d e = ground arith

pub is_member-remove_member :
    (k a j b : String) (d : Sets)
    → is_member j b (remove_member k a d) ≡ (not ((k == j) && (a == b)) && is_member j b d)
is_member-remove_member k a j b d = elim (Option-cases (lookup k d)) [
  | inl e ↦ rw (remove_member_absent k a d e) (ground (arith, eq_iff k j, members-absent k d e))
  | inr (s, e) ↦ rw (remove_member_present k a s d e) (
      ground (
        arith,
        is_member-prune k j b (discard a s) d,
        members-present k s d e,
        contains-discard a b s,
        eq_iff k j,
      ))
]
