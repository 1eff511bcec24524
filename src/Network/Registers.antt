-- ===== src/Network/Registers.antt =====
-- The tables of an agent: delegated tasks, their results and the log
-- (src/agent_delegation_network.py).
use agent_delegation_network.Json.{Fields, Json, get, obj, str, truthy}
use agent_delegation_network.Json.Keys.{
  KeyDict, key_lookup, key_lookup-key_insert, same_key_iff, text,
}
use agent_delegation_network.Network.Agent.{Agent, LogEntry, has_result, pending_of}
use agent_delegation_network.Network.Delegation.{
  Task, create_delegation_request, delegate_task, new_request, receipt_delegation_id, register,
}
use agent_delegation_network.Network.Execution.{answer}
use agent_delegation_network.Policy.Decisions.{
  evaluate_delegation_request, evaluate_delegation_request_iff, is_trusted,
}
use agent_delegation_network.Policy.Rules.{is_member}
use agent_delegation_network.Prelude.{
  Bool-cases, Exception, List, Result, Result-cases, String, [], arith, false, if◌then◌else◌, inl,
  inr, length, length-append, ok, permission_error, raised, refl, some, suc, sym, take, true, zero,
  ℕ, ◌&&◌, ◌+◌, ◌∙◌, ◌∷◌, ◌≡◌, ◌≤◌, ◌⊎◌,
}
use agent_delegation_network.Protocol.Messages.{DelegationRequest, DelegationResult, expect_dict}
use agent_delegation_network.Text.Strings.{str_of}
use agent_delegation_network.Verifier.Guarantees.{expect_dict-eq-ok}

-- What the policy makes of a task whose request has the id `id`.
unfoldable pub IsDecided : ℕ → String → String → Task → Agent → Result Json × Agent → Type 0
IsDecided now id nonce t a (answer, a') =
    ((is_member a.signer.agent_id t.action a.policy.delegation_rules
          && is_trusted a.policy a.signer.agent_id t.to_agent_id
          && is_member t.to_agent_id t.action a.policy.delegation_rules
        ≡ true)
      × (answer ≡ ok (str id))
      × (key_lookup (text id) a'.delegations ≡ some (new_request now id nonce a.signer.agent_id t))
      × (length a'.delegation_log ≡ length a.delegation_log + 1))
    ⊎ ((is_member a.signer.agent_id t.action a.policy.delegation_rules
            && is_trusted a.policy a.signer.agent_id t.to_agent_id
            && is_member t.to_agent_id t.action a.policy.delegation_rules
          ≡ false)
        × (answer ≡ raised (permission_error "Delegation not allowed"))
        × (a' ≡ a))

register-IsDecided :
    (now : ℕ) (id nonce : String) (t : Task) (a : Agent)
    → IsDecided now id nonce t a
        (register now t a (ok (new_request now id nonce a.signer.agent_id t)))
unfolding register IsDecided
register-IsDecided now id nonce t a =
    let r = new_request now id nonce a.signer.agent_id t in
    let k = text id in
    let e = evaluate_delegation_request_iff a.policy t.action a.signer.agent_id t.to_agent_id in
    elim (Bool-cases
      (evaluate_delegation_request a.policy t.action a.signer.agent_id t.to_agent_id).0) [
        | inl p ↦ inl (
          sym e ∙ p,
          rw p,
          rw p (key_lookup-key_insert k k r a.delegations ∙ (rw ((same_key_iff k k).1 refl))),
          rw p (length-append {A = LogEntry} a.delegation_log _),
        )
        | inr p ↦ inr (sym e ∙ p, rw p, rw p)
      ]

-- A truthy receipt that is no dict raises, and the agent is as before. Otherwise the request has the
-- receipt's id as a text, or the fresh id if the receipt has none, and the task is delegated exactly if
-- the policy lets this agent delegate the action, trust the target, and lets the target perform it:
-- then the id is returned, the new request is registered under it, and the log has one more entry;
-- if not, a PermissionError is raised and the agent is as before.
pub delegate_task_by_policy :
    (repr : Json → String) (now : ℕ) (fresh_id nonce : String) (t : Task) (a : Agent)
    → let outcome = delegate_task repr now fresh_id nonce t a in
      ((e : Exception) × (truthy t.tee_authorization ≡ true)
        × (expect_dict t.tee_authorization ≡ raised e)
        × (outcome ≡ (raised e, a)))
      ⊎ ((receipt : Fields) × ((truthy t.tee_authorization ≡ true)
            × (t.tee_authorization ≡ obj receipt)
            × (truthy (get "delegation_id" receipt) ≡ true)
            × IsDecided now (str_of repr (get "delegation_id" receipt)) nonce t a outcome))
      ⊎ (((truthy t.tee_authorization ≡ false)
            ⊎ ((receipt : Fields) × (t.tee_authorization ≡ obj receipt)
                × (truthy (get "delegation_id" receipt) ≡ false)))
          × IsDecided now fresh_id nonce t a outcome)
unfolding delegate_task create_delegation_request receipt_delegation_id
delegate_task_by_policy repr now fresh_id nonce t a =
    elim (Bool-cases (truthy t.tee_authorization)) [
      | inr falsy ↦ inr (inr (inl falsy, rw falsy (register-IsDecided now fresh_id nonce t a)))
      | inl given_receipt ↦ elim (Result-cases (expect_dict t.tee_authorization)) [
        | inr (e, p) ↦ inl (e, given_receipt, p, rw given_receipt (rw p (unfold register in refl)))
        | inl (receipt, p) ↦
            let is_obj = expect_dict-eq-ok t.tee_authorization receipt p in
            let own =
              register-IsDecided now (str_of repr (get "delegation_id" receipt)) nonce t a in
            let fresh = register-IsDecided now fresh_id nonce t a in
            elim (Bool-cases (truthy (get "delegation_id" receipt))) [
              | inl q ↦
                  inr
                    (inl (receipt, (given_receipt, is_obj, q, rw given_receipt (rw p (rw q own)))))
              | inr q ↦ inr (inr (inr (receipt, is_obj, q), rw given_receipt (rw p (rw q fresh))))
            ]
      ]
    ]

-- The number of registered requests that have a result.
unfoldable pub answered_of :
    KeyDict DelegationResult → KeyDict DelegationRequest → List DelegationRequest
answered_of results [] = []
answered_of results ((k, r) ∷ d) =
    let rest = answered_of results d in if has_result k results then r ∷ rest else rest

-- Every registered request is either pending or has a result, and none is both.
pub pending_or_answered :
    (results : KeyDict DelegationResult) (d : KeyDict DelegationRequest)
    → length (pending_of results d) + length (answered_of results d) ≡ length d
unfolding pending_of answered_of
pending_or_answered results [] = omega arith
pending_or_answered results ((k, r) ∷ d) = ground (arith, pending_or_answered results d)

length-take-le : {A : Type 0} (n : ℕ) (xs : List A) → length (take n xs) ≤ n
length-take-le zero xs = omega arith
length-take-le (suc n) [] = omega arith
length-take-le (suc n) (x ∷ xs) = omega (arith, length-take-le n xs)
