-- ===== src/Network/Processing.antt =====
-- `process_delegation_request` of src/agent_delegation_network.py: the guards in front of the
-- execution, and the reply of every path.
use agent_delegation_network.Crypto.{Crypto}
use agent_delegation_network.Json.{Fields, Json, str}
use agent_delegation_network.Json.Equality.{py_eq}
use agent_delegation_network.Json.Keys.{hash_key}
use agent_delegation_network.Network.Agent.{Handler, Node, find_handler}
use agent_delegation_network.Network.Execution.{
  Environment, Outcome, answer_error, answer_failed, granted, replay_expires_at,
}
use agent_delegation_network.Policy.Decisions.{
  Reason, delegation_not_allowed, evaluate_delegation_request, is_empty, no_policy, not_listed,
}
use agent_delegation_network.Policy.Rules.{DelegationPolicy, members}
use agent_delegation_network.Prelude.{
  Bool, Option, Result, String, false, if◌then◌else◌, none, not, ok, raise_if, raised, some,
  value_error, ℕ, ◌>>=◌, ◌>>◌,
}
use agent_delegation_network.Protocol.Messages.{
  DelegationRequest, is_expired, request_from_action_request,
}
use agent_delegation_network.Protocol.Validation.{
  Receiver, Verdict, receipt_or_empty, validate_delegation_request,
}
use agent_delegation_network.ReplayLedger.Execution.{Request, begin_request_execution}
use agent_delegation_network.RuntimeSecurity.Context.{
  WorkerAuthorizationContext, from_trusted_config,
}
use agent_delegation_network.Tee.Receipt.{receipt_fingerprint}
use agent_delegation_network.Verifier.Verification.{text_of}

-- `evaluate_delegation_request` on values of the wire: what is no text is in no table, and what is
-- unhashable raises where it is looked up.
unfoldable pub evaluate_wire : DelegationPolicy → Json → Json → String → Result (Bool × Reason)
evaluate_wire p (str action) (str from_agent_id) to_agent_id =
    ok (evaluate_delegation_request p action from_agent_id to_agent_id)
evaluate_wire p action (str from_agent_id) to_agent_id =
    if is_empty (members from_agent_id p.delegation_rules)
    then ok (false, delegation_not_allowed (no_policy from_agent_id))
    else hash_key action >>= λ _. ok (false, delegation_not_allowed (not_listed "" from_agent_id))
evaluate_wire p action from_agent_id to_agent_id =
    hash_key from_agent_id >>= λ _. ok (false, delegation_not_allowed (no_policy ""))

-- What the receiver's configuration makes of the caller's gateway.
unfoldable pub receiver_of : String → WorkerAuthorizationContext → Receiver
receiver_of agent_id x = record {
  agent_id = agent_id;
  gateway_public_key_hex = x.expected_gateway_public_key_hex;
  gateway_key_id = x.expected_gateway_key_id;
  build_config_id = x.expected_build_config_id;
  requires_tee = x.require_tee_authorization;
}

abbrev pub ledger_request :
    String → ℕ → String → DelegationRequest → String → Option String → Request
ledger_request key expires_at owner r fingerprint secret = record {
  replay_key = key;
  replay_expires_at = expires_at;
  owner_agent_id = owner;
  delegation_id = text_of r.delegation_id;
  payload_fingerprint = fingerprint;
  integrity_secret_hex = secret;
}

-- A request that has passed every guard before the policy: the request and its replay key.
abbrev pub Admitted : Type 0
Admitted = DelegationRequest × String

abbrev pub key_or_empty : Option String → String
key_or_empty none = ""
key_or_empty (some k) = k

module _ (c : Crypto) (env : Environment) where
  abbrev pub authorization : Result WorkerAuthorizationContext
  authorization =
      from_trusted_config env.runtime_mode env.gateway_public_key_hex env.gateway_key_id
        env.build_config_id env.require_tee_authorization

  abbrev pub admitted : DelegationRequest → Verdict → Result Admitted
  admitted r (valid, message, key) =
      if valid then ok (r, key_or_empty key) else raised (value_error message)

  -- Parsing, expiry, audience, the authorization context and the validation of the signed request.
  unfoldable pub admit : String → Fields → Result Admitted
  admit own_id signed_request = do
    r ← request_from_action_request env.received_at signed_request
    late ← is_expired env.received_at r
    raise_if late (value_error "Delegation request has expired")
    raise_if (not (py_eq r.to_agent_id (str own_id)))
        (value_error "Delegation request not for this agent")
    context ← authorization
    verdict ←
        validate_delegation_request c env.mock env.validated_at (receiver_of own_id context)
          signed_request
    admitted r verdict

  -- The ledger is asked only if the policy allows the request and there is a handler for it.
  unfoldable pub claim :
      DelegationRequest → String → Handler → Node → Result (Fields × ℕ × Option String) → Outcome
  claim r key h n (raised e) = answer_error c env n false e
  claim r key h n (ok (receipt, expires_at, secret)) = granted c env r h key secret n.agent (
      begin_request_execution c
        (ledger_request key expires_at n.agent.signer.agent_id r (receipt_fingerprint c receipt)
          secret)
        env.begun_at env.execution_token n.ledger)

  -- The arguments of the ledger call, in the order in which they are computed.
  unfoldable pub claim_arguments : DelegationRequest → Result (Fields × ℕ × Option String)
  claim_arguments r = do
    secret ← env.integrity_key
    expires_at ← replay_expires_at c env.begun_at r
    receipt ← receipt_or_empty r.tee_authorization
    ok (receipt, expires_at, secret)

  unfoldable pub dispatch : DelegationRequest → String → Node → Result (Option Handler) → Outcome
  unfolding claim
  dispatch r key n (raised e) = answer_error c env n false e
  dispatch r key n (ok none) = answer_failed c env n r "No handler available for action"
  dispatch r key n (ok (some h)) = claim r key h n (claim_arguments r)

  unfoldable pub decide : DelegationRequest → String → Node → Result (Bool × Reason) → Outcome
  unfolding dispatch
  decide r key n (raised e) = answer_error c env n false e
  decide r key n (ok (allowed, reason)) =
      if allowed
      then dispatch r key n (find_handler r.action n.agent)
      else answer_failed c env n r "Not allowed by policy"

  unfoldable pub respond : Node → Result Admitted → Outcome
  unfolding decide
  respond n (raised e) = answer_error c env n false e
  respond n (ok (r, key)) =
      decide r key n (evaluate_wire n.agent.policy r.action r.from_agent_id n.agent.signer.agent_id)

  unfoldable pub process_delegation_request : Fields → Node → Outcome
  unfolding respond
  process_delegation_request signed_request n =
      respond n (admit n.agent.signer.agent_id signed_request)
