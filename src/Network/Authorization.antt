-- ===== src/Network/Authorization.antt =====
-- When a handler runs, and what a request that does not run one leaves behind
-- (src/agent_delegation_network.py).
use agent_delegation_network.Crypto.{Crypto}
use agent_delegation_network.Json.{Fields, Json, str}
use agent_delegation_network.Json.Equality.{py_eq}
use agent_delegation_network.Json.Keys.{hash_key}
use agent_delegation_network.Network.Agent.{Agent, Handler, Node, find_handler}
use agent_delegation_network.Network.Execution.{Environment, granted}
use agent_delegation_network.Network.Processing.{
  Admitted, admit, admitted, authorization, claim, claim_arguments, decide, dispatch, evaluate_wire,
  key_or_empty, ledger_request, process_delegation_request, receiver_of, respond,
}
use agent_delegation_network.Policy.Decisions.{Reason, evaluate_delegation_request_iff, is_trusted}
use agent_delegation_network.Policy.Rules.{DelegationPolicy, is_member}
use agent_delegation_network.Prelude.{
  >>-eq-ok, >>=-eq-ok, Bool, Option, Result, String, ap, arith, false, none, not, ok, raise_if,
  raised, refl, some, subst, true, value_error, ℕ, ◌>>=◌, ◌>>◌, ◌∙◌, ◌≡◌,
}
use agent_delegation_network.Protocol.Guarantees.{IsAccepted, validate_delegation_request_sound}
use agent_delegation_network.Protocol.Messages.{
  DelegationRequest, is_expired, request_from_action_request,
}
use agent_delegation_network.Protocol.Validation.{Verdict, validate_delegation_request}
use agent_delegation_network.ReplayLedger.Execution.{Grant, begin_request_execution}
use agent_delegation_network.ReplayLedger.Table.{Table}
use agent_delegation_network.RuntimeSecurity.Context.{WorkerAuthorizationContext}
use agent_delegation_network.Tee.Receipt.{receipt_fingerprint}

-- The request passed every guard: it was admitted, the policy approves it, a handler is registered for
-- its action, and the ledger granted this execution of its replay key.
pub record IsAuthorized (c : Crypto) (env : Environment) (signed_request : Fields) (n : Node)
    : Type 0 where
  pub request : DelegationRequest
  pub key : String
  pub passed : admit c env n.agent.signer.agent_id signed_request ≡ ok (request, key)
  pub reason : Reason
  pub approved_by_policy :
      evaluate_wire n.agent.policy request.action request.from_agent_id n.agent.signer.agent_id
      ≡ ok (true, reason)
  pub handler : Handler
  pub registered : find_handler request.action n.agent ≡ ok (some handler)
  pub arguments : Fields × ℕ × Option String
  pub computed : claim_arguments c env request ≡ ok arguments
  pub grant : String × Option String
  pub granted_by_ledger :
      (begin_request_execution c
        (ledger_request key arguments.1 n.agent.signer.agent_id request
          (receipt_fingerprint c arguments.0)
          arguments.2)
        env.begun_at
        env.execution_token
        n.ledger).0
      ≡ ok (true, grant.0, grant.1)

module _ (c : Crypto) (env : Environment) where
  granted_executed :
      (r : DelegationRequest) (h : Handler) (key : String) (secret : Option String) (a : Agent)
      (g : Result Grant × Table)
      → (granted c env r h key secret a g).executed ≡ true
      → (grant : String × Option String) × (g.0 ≡ ok (true, grant.0, grant.1))
  granted_executed r h key secret a (raised e, db) x = cc
  granted_executed r h key secret a (ok (true, why, token), db) x = ((why, token), refl)
  granted_executed r h key secret a (ok (false, why, token), db) x = cc

  module _ (signed_request : Fields) (n : Node) where
    claim_executed :
        (r : DelegationRequest) (key : String) (h : Handler)
        (m : Result (Fields × ℕ × Option String))
        → (claim c env r key h n m).executed ≡ true
        → (x : Fields × ℕ × Option String) × (m ≡ ok x)
          × ((grant : String × Option String) × ((begin_request_execution c
                  (ledger_request key x.1 n.agent.signer.agent_id r (receipt_fingerprint c x.0) x.2)
                  env.begun_at
                  env.execution_token
                  n.ledger).0
                ≡ ok (true, grant.0, grant.1)))
    unfolding claim
    claim_executed r key h (raised e) x = cc
    claim_executed r key h (ok (receipt, t, secret)) x = (
      (receipt, t, secret),
      refl,
      granted_executed r h key secret n.agent
          (begin_request_execution c
            (ledger_request key t n.agent.signer.agent_id r (receipt_fingerprint c receipt) secret)
            env.begun_at env.execution_token n.ledger)
          x,
    )

    module _ (r : DelegationRequest) (key : String)
        (passed : admit c env n.agent.signer.agent_id signed_request ≡ ok (r, key)) where
      dispatch_executed :
          (reason : Reason) (m : Result (Option Handler))
          → evaluate_wire n.agent.policy r.action r.from_agent_id n.agent.signer.agent_id
            ≡ ok (true, reason)
          → find_handler r.action n.agent ≡ m
          → (dispatch c env r key n m).executed ≡ true
          → IsAuthorized c env signed_request n
      unfolding dispatch
      dispatch_executed reason (raised e) p q x = cc
      dispatch_executed reason (ok none) p q x = cc
      dispatch_executed reason (ok (some h)) p q x =
          let (args, computed, (grant, g)) = claim_executed r key h (claim_arguments c env r) x in
          record {
            request = r;
            key = key;
            passed = passed;
            reason = reason;
            approved_by_policy = p;
            handler = h;
            registered = q;
            arguments = args;
            computed = computed;
            grant = grant;
            granted_by_ledger = g;
          }

      decide_executed :
          (m : Result (Bool × Reason))
          → evaluate_wire n.agent.policy r.action r.from_agent_id n.agent.signer.agent_id ≡ m
          → (decide c env r key n m).executed ≡ true
          → IsAuthorized c env signed_request n
      unfolding decide
      decide_executed (raised e) p x = cc
      decide_executed (ok (false, reason)) p x = cc
      decide_executed (ok (true, reason)) p x =
          dispatch_executed reason (find_handler r.action n.agent) p refl x

    respond_executed :
        (m : Result Admitted)
        → admit c env n.agent.signer.agent_id signed_request ≡ m
        → (respond c env n m).executed ≡ true
        → IsAuthorized c env signed_request n
    unfolding respond
    respond_executed (raised e) p x = cc
    respond_executed (ok (r, key)) p x =
        decide_executed r key p
          (evaluate_wire n.agent.policy r.action r.from_agent_id n.agent.signer.agent_id) refl x

    -- A handler is called for a message only if the message is authorized: it passed parsing, expiry,
    -- audience and validation, the policy approves its action for its sender and this agent, a handler
    -- is registered for the action, and the replay ledger granted this execution.
    pub executed-IsAuthorized :
        (process_delegation_request c env signed_request n).executed ≡ true
        → IsAuthorized c env signed_request n
    unfolding process_delegation_request
    executed-IsAuthorized x =
        respond_executed (admit c env n.agent.signer.agent_id signed_request) refl x

-- The policy's approval on the wire is its approval of three texts.
pub evaluate_wire_approved :
    (p : DelegationPolicy) (action from_agent_id : Json) (to_agent_id : String) (reason : Reason)
    → evaluate_wire p action from_agent_id to_agent_id ≡ ok (true, reason)
    → (a f : String) × (action ≡ str a)
      × (from_agent_id ≡ str f)
      × (is_member f a p.delegation_rules ≡ true)
      × (is_trusted p f to_agent_id ≡ true)
      × (is_member to_agent_id a p.delegation_rules ≡ true)
unfolding evaluate_wire hash_key
evaluate_wire_approved p (str a) (str f) to_agent_id reason h =
    let e = evaluate_delegation_request_iff p a f to_agent_id in
    (a, f, refl, refl, ground arith, ground arith, ground arith)
evaluate_wire_approved p _ _ to_agent_id reason h = absurd (ground arith)

module _ (c : Crypto) (env : Environment) (own_id : String) (signed_request : Fields) where
  admitted_valid :
      (r r' : DelegationRequest) (v : Verdict) (key : String)
      → admitted c env r v ≡ ok (r', key)
      → (r ≡ r') × (v.0 ≡ true) × (key ≡ key_or_empty v.2)
  admitted_valid r r' v key h = ground arith

  -- What an admitted message was read as, and its verdict.
  pub admit_read :
      (r : DelegationRequest) (key : String)
      → admit c env own_id signed_request ≡ ok (r, key)
      → (request_from_action_request env.received_at signed_request ≡ ok r)
        × ((context : WorkerAuthorizationContext) × (authorization c env ≡ ok context)
            × ((derived : Option String) × (key ≡ key_or_empty derived)
                × ((message : String) × (validate_delegation_request c env.mock env.validated_at
                        (receiver_of own_id context)
                        signed_request
                      ≡ ok (true, message, derived)))))
  unfolding admit
  admit_read r key h =
      let parsed = request_from_action_request env.received_at signed_request in
      let validated = λ (x : WorkerAuthorizationContext).
        validate_delegation_request c env.mock env.validated_at (receiver_of own_id x)
          signed_request in
      let in_context =
        λ (q : DelegationRequest). authorization c env >>= λ x. validated x >>= admitted c env q in
      let addressed = λ (q : DelegationRequest).
        raise_if (not (py_eq q.to_agent_id (str own_id)))
          (value_error "Delegation request not for this agent")
        >> in_context q in
      let timely = λ (q : DelegationRequest). λ (late : Bool).
        raise_if late (value_error "Delegation request has expired") >> addressed q in
      let (q, p₀, h₀) = >>=-eq-ok parsed (λ q. is_expired env.received_at q >>= timely q) h in
      let (late, p₁, h₁) = >>=-eq-ok (is_expired env.received_at q) (timely q) h₀ in
      let (p₂, h₂) =
        >>-eq-ok (raise_if late (value_error "Delegation request has expired")) (addressed q) h₁ in
      let (p₃, h₃) =
        >>-eq-ok
          (raise_if (not (py_eq q.to_agent_id (str own_id)))
            (value_error "Delegation request not for this agent"))
          (in_context q) h₂ in
      let (x, p₄, h₄) =
        >>=-eq-ok (authorization c env) (λ x. validated x >>= admitted c env q) h₃ in
      let (v, p₅, h₅) = >>=-eq-ok (validated x) (admitted c env q) h₄ in
      let (own, valid, same) = admitted_valid q r v key h₅ in
      (p₀ ∙ ap ok own, (x, p₄, (v.2, same, (v.1, p₅ ∙ ap (λ b. ok (b, v.1, v.2)) valid))))

  -- Outside mock mode a message is admitted only if the signed request is accepted for this agent under
  -- the authorization context of the process; its replay key is the one that validation derived.
  pub admit-IsAccepted :
      (r : DelegationRequest) (key : String)
      → env.mock ≡ false
      → admit c env own_id signed_request ≡ ok (r, key)
      → (context : WorkerAuthorizationContext) × (authorization c env ≡ ok context)
        × ((derived : Option String) × (key ≡ key_or_empty derived)
            × IsAccepted c env.validated_at (receiver_of own_id context) signed_request derived)
  admit-IsAccepted r key unmocked h =
      let (read, (x, p, (derived, same, (why, verdict)))) = admit_read r key h in
      let proved =
        subst
          (λ m.
            validate_delegation_request c m env.validated_at (receiver_of own_id x) signed_request
            ≡ ok (true, why, derived))
          unmocked verdict in
      (
        x,
        p,
        (
          derived,
          same,
          validate_delegation_request_sound c env.validated_at (receiver_of own_id x) signed_request
              proved,
        ),
      )
