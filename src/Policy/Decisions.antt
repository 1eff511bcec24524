-- ===== src/Policy/Decisions.antt =====
-- `can_delegate`, `can_perform_task`, `is_trusted`, `get_agent_info` and
-- `evaluate_delegation_request` of src/delegation_policy.py. A reason stands for its message.
use agent_delegation_network.Json.{Json, end, obj}
use agent_delegation_network.Policy.Rules.{DelegationPolicy, Sets, is_member, members}
use agent_delegation_network.Prelude.{
  Bool, List, String, [], arith, contains, eq_iff, false, if◌then◌else◌, none, not, refl, some,
  true, ℕ, ◌&&◌, ◌∷◌, ◌≡◌,
}
use agent_delegation_network.Prelude.Dict.{Dict, lookup}

pub data Reason : Type 0 where
  no_policy : String → Reason
  no_target_trust : String → Reason
  not_trusted : String → String → String → Reason
  not_listed : String → String → Reason
  delegation_allowed : String → String → Reason
  task_allowed : String → Reason
  delegation_not_allowed : Reason → Reason
  target_not_allowed : Reason → Reason
  approved : Reason

abbrev pub is_empty : List String → Bool
is_empty [] = true
is_empty (_ ∷ _) = false

unfoldable pub can_delegate : DelegationPolicy → String → String → String → Bool × Reason
can_delegate p from_agent_id to_agent_id action =
    let allowed_actions = members from_agent_id p.delegation_rules in
    let trusted_agents = members from_agent_id p.agent_trust in
    if is_empty allowed_actions
    then (false, no_policy from_agent_id)
    else if contains action allowed_actions
    then (if is_empty trusted_agents
        then (false, no_target_trust from_agent_id)
        else if contains to_agent_id trusted_agents
        then (true, delegation_allowed action to_agent_id)
        else (false, not_trusted from_agent_id to_agent_id action))
    else (false, not_listed action from_agent_id)

unfoldable pub can_perform_task : DelegationPolicy → String → String → Bool × Reason
can_perform_task p agent_id action =
    let allowed_actions = members agent_id p.delegation_rules in
    if is_empty allowed_actions
    then (false, no_policy agent_id)
    else if contains action allowed_actions
    then (true, task_allowed action)
    else (false, not_listed action agent_id)

unfoldable pub is_trusted : DelegationPolicy → String → String → Bool
is_trusted p from_agent_id to_agent_id = contains to_agent_id (members from_agent_id p.agent_trust)

-- The keys of the sets that hold `a`.
unfoldable pub holders : String → Sets → List String
holders a [] = []
holders a ((k, s) ∷ d) = let rest = holders a d in if contains a s then k ∷ rest else rest

pub record AgentInfo : Type 0 where
  pub agent_id : String
  pub allowed_actions : List String
  pub trusted_agents : List String
  pub trusting_agents : List String
  pub rate_limits : Json
  pub delegation_quota : ℕ

unfoldable pub get_agent_info : DelegationPolicy → String → AgentInfo
get_agent_info p agent_id = record {
  agent_id = agent_id;
  allowed_actions = members agent_id p.delegation_rules;
  trusted_agents = members agent_id p.agent_trust;
  trusting_agents = holders agent_id p.agent_trust;
  rate_limits = elim (lookup agent_id p.rate_limits) [ none ↦ obj end | some v ↦ v ];
  delegation_quota = elim (lookup agent_id p.delegation_quotas) [ none ↦ 0 | some n ↦ n ];
}

-- `action` is the request's.
unfoldable pub evaluate_delegation_request :
    DelegationPolicy → String → String → String → Bool × Reason
evaluate_delegation_request p action from_agent_id to_agent_id =
    let (can, why) = can_delegate p from_agent_id to_agent_id action in
    if not can
    then (false, delegation_not_allowed why)
    else (let (able, reason) = can_perform_task p to_agent_id action in
        if not able then (false, target_not_allowed reason) else (true, approved))

contains-empty : (a : String) (s : List String) → is_empty s ≡ true → contains a s ≡ false
contains-empty a [] h = refl
contains-empty a (x ∷ s) h = cc

-- A delegation is allowed exactly if the action is in the delegator's set of actions and the target
-- in its set of trusted agents; so an agent with no entry is denied.
pub can_delegate_iff :
    (p : DelegationPolicy) (from_agent_id to_agent_id action : String)
    → (can_delegate p from_agent_id to_agent_id action).0 ≡ (
        is_member from_agent_id action p.delegation_rules
        && is_member from_agent_id to_agent_id p.agent_trust)
unfolding can_delegate
can_delegate_iff p from_agent_id to_agent_id action = ground (
  arith,
  contains-empty action (members from_agent_id p.delegation_rules),
  contains-empty to_agent_id (members from_agent_id p.agent_trust),
)

pub can_perform_task_iff :
    (p : DelegationPolicy) (agent_id action : String)
    → (can_perform_task p agent_id action).0 ≡ is_member agent_id action p.delegation_rules
unfolding can_perform_task
can_perform_task_iff p agent_id action =
    ground (arith, contains-empty action (members agent_id p.delegation_rules))

-- A request is approved exactly if the delegator may delegate the action, trusts the target, and the
-- target may perform the action.
pub evaluate_delegation_request_iff :
    (p : DelegationPolicy) (action from_agent_id to_agent_id : String)
    → (evaluate_delegation_request p action from_agent_id to_agent_id).0 ≡ (
        is_member from_agent_id action p.delegation_rules
        && is_trusted p from_agent_id to_agent_id
        && is_member to_agent_id action p.delegation_rules)
unfolding evaluate_delegation_request is_trusted
evaluate_delegation_request_iff p action from_agent_id to_agent_id = ground (
  arith,
  can_delegate_iff p from_agent_id to_agent_id action,
  can_perform_task_iff p to_agent_id action,
)

abbrev pub HasKeys : {V : Type 0} → Dict V → Type 0
HasKeys [] = Unit
HasKeys ((k, v) ∷ d) = (lookup k d ≡ none) × HasKeys d

holders-absent : (a k : String) (d : Sets) → lookup k d ≡ none → contains k (holders a d) ≡ false
unfolding holders lookup
holders-absent a k [] h = refl
holders-absent a k ((j, s) ∷ d) h = ground (arith, holders-absent a k d, eq_iff j k)

holders-members :
    (a b : String) (d : Sets) → HasKeys d → contains b (holders a d) ≡ contains a (members b d)
unfolding holders lookup members
holders-members a b [] h = refl
holders-members a b ((j, s) ∷ d) h =
    ground
      (arith, holders-members a b d h.1, holders-absent a j d h.0, holders-absent a b d, eq_iff j b)

-- If the trust table has distinct keys, the agents that an agent's info lists as trusting it are
-- exactly those that trust it, and those that it lists as trusted exactly those that it trusts.
pub get_agent_info_trust :
    (p : DelegationPolicy) (a b : String)
    → HasKeys p.agent_trust
    → (contains b (get_agent_info p a).trusting_agents ≡ is_trusted p b a)
      × (contains b (get_agent_info p a).trusted_agents ≡ is_trusted p a b)
unfolding get_agent_info is_trusted
get_agent_info_trust p a b h = (holders-members a b p.agent_trust h, refl)
