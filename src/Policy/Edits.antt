-- ===== src/Policy/Edits.antt =====
-- Sequences of edits of a policy against two plain relations: who may do what, and who trusts whom
-- (src/delegation_policy.py).
use agent_delegation_network.Policy.Decisions.{
  evaluate_delegation_request, evaluate_delegation_request_iff, is_trusted,
}
use agent_delegation_network.Policy.Rules.{
  DelegationPolicy, add_delegation_rule, add_trust_relationship, is_member, is_member-add_member,
  is_member-remove_member, remove_delegation_rule, remove_trust_relationship,
}
use agent_delegation_network.Prelude.{
  Bool, List, String, [], ap, not, refl, ◌&&◌, ◌==◌, ◌||◌, ◌∙◌, ◌∷◌, ◌≡◌,
}

pub data Edit : Type 0 where
  add_rule remove_rule add_trust remove_trust : String → String → Edit

unfoldable pub edit : Edit → DelegationPolicy → DelegationPolicy
edit (add_rule k a) = add_delegation_rule k a
edit (remove_rule k a) = remove_delegation_rule k a
edit (add_trust k a) = add_trust_relationship k a
edit (remove_trust k a) = remove_trust_relationship k a

unfoldable pub edit_all : List Edit → DelegationPolicy → DelegationPolicy
unfolding edit
edit_all [] p = p
edit_all (x ∷ xs) p = edit_all xs (edit x p)

-- What a policy says: `may agent action` and `trusts from to`.
pub record View : Type 0 where
  pub may : String → String → Bool
  pub trusts : String → String → Bool

abbrev pub include : String → String → (String → String → Bool) → String → String → Bool
include k a r j b = (k == j) && (a == b) || r j b

abbrev pub exclude : String → String → (String → String → Bool) → String → String → Bool
exclude k a r j b = not ((k == j) && (a == b)) && r j b

abbrev pub edit_view : Edit → View → View
edit_view (add_rule k a) v = record v { may = include k a v.may }
edit_view (remove_rule k a) v = record v { may = exclude k a v.may }
edit_view (add_trust k a) v = record v { trusts = include k a v.trusts }
edit_view (remove_trust k a) v = record v { trusts = exclude k a v.trusts }

unfoldable pub edit_view_all : List Edit → View → View
edit_view_all [] v = v
edit_view_all (x ∷ xs) v = edit_view_all xs (edit_view x v)

abbrev pub view : DelegationPolicy → View
view p = record {
  may = λ j b. is_member j b p.delegation_rules;
  trusts = λ j b. is_member j b p.agent_trust;
}

edit-view : (x : Edit) (p : DelegationPolicy) → view (edit x p) ≡ edit_view x (view p)
unfolding edit add_delegation_rule remove_delegation_rule add_trust_relationship
    remove_trust_relationship
edit-view (add_rule k a) p =
    λ i. record (view p) { may = λ j b. is_member-add_member k a j b p.delegation_rules i }
edit-view (remove_rule k a) p =
    λ i. record (view p) { may = λ j b. is_member-remove_member k a j b p.delegation_rules i }
edit-view (add_trust k a) p =
    λ i. record (view p) { trusts = λ j b. is_member-add_member k a j b p.agent_trust i }
edit-view (remove_trust k a) p =
    λ i. record (view p) { trusts = λ j b. is_member-remove_member k a j b p.agent_trust i }

-- The tables of sets, with their missing keys, duplicates and deleted empty sets, implement two plain
-- relations: after any sequence of the four edits the policy says what the same edits of the
-- relations give.
pub edit_all-view :
    (xs : List Edit) (p : DelegationPolicy) → view (edit_all xs p) ≡ edit_view_all xs (view p)
unfolding edit_all edit_view_all
edit_all-view [] p = refl
edit_all-view (x ∷ xs) p = edit_all-view xs (edit x p) ∙ ap (edit_view_all xs) (edit-view x p)

-- So after any edits a delegation is approved exactly if the edited relations let the delegator do
-- the action and trust the target, and let the target do the action.
pub approved_after_edits :
    (xs : List Edit) (p : DelegationPolicy) (action from_agent_id to_agent_id : String)
    → let v = edit_view_all xs (view p) in
      (evaluate_delegation_request (edit_all xs p) action from_agent_id to_agent_id).0 ≡ (
        v.may from_agent_id action
        && v.trusts from_agent_id to_agent_id
        && v.may to_agent_id action)
unfolding is_trusted
approved_after_edits xs p action from_agent_id to_agent_id =
    evaluate_delegation_request_iff (edit_all xs p) action from_agent_id to_agent_id
    ∙ ap
        (λ (v : View).
          v.may from_agent_id action
          && v.trusts from_agent_id to_agent_id
          && v.may to_agent_id action)
        (edit_all-view xs p)
