-- ===== src/Protocol/Guarantees.antt =====
-- What an accepted request guarantees, and what it does not (src/delegation_protocol.py).
use agent_delegation_network.Auth.Soundness.{IsAuthentic, verify_action_request_sound}
use agent_delegation_network.Auth.Verification.{verify_action_request}
use agent_delegation_network.Crypto.{Crypto}
use agent_delegation_network.Json.{Fields, str, truthy}
use agent_delegation_network.Json.Equality.{py_eq, py_eq-str}
use agent_delegation_network.Prelude.{
  >>=-eq-ok, Bool, Bool-cases, Option, Result, Result-cases, String, ap, arith, attribute_error,
  false, inl, inr, invalid_signature, not, ok, os_error, permission_error, raised, refl,
  runtime_error, some, true, type_error, value_error, ℕ, ◌&&◌, ◌>>=◌, ◌∙◌, ◌≡◌, ◌⊎◌,
}
use agent_delegation_network.Protocol.Messages.{
  DelegationRequest, is_expired, request_from_action_request,
}
use agent_delegation_network.Protocol.Validation.{
  Receiver, Verdict, after_proof, data_untampered, demand, expected_of, is_set, receipt_or_empty,
  receipt_verdict, replay_key_of, validate_data, validate_delegation_request, validate_receipt,
  validate_replay_key, validate_request,
}
use agent_delegation_network.Tee.Checks.{verify_tee_authorization_receipt}

demand-true :
    (b : Bool) (message : String) (rest : Result Verdict) {s : String} {k : Option String}
    → demand b message rest ≡ ok (true, s, k)
    → (b ≡ true) × (rest ≡ ok (true, s, k))
demand-true true message rest h = (refl, h)
demand-true false message rest h = absurd (cc)

-- The receipt part of an accepted request: with a receipt, the receiver knows its gateway and the
-- receipt authorizes this request.
abbrev pub ReceiptHolds : Crypto → Bool → ℕ → Receiver → DelegationRequest → Type 0
ReceiptHolds c mock now x r =
    (is_set x.gateway_public_key_hex ≡ true)
    × (is_set x.gateway_key_id ≡ true)
    × (is_set x.build_config_id ≡ true)
    × ((receipt : Fields) × (verify_tee_authorization_receipt c mock now (expected_of c x r)
            r.tee_authorization
          ≡ ok receipt))

pub record IsAccepted (c : Crypto) (now : ℕ) (x : Receiver) (signed_request : Fields)
    (key : Option String) : Type 0 where
  pub authentic : IsAuthentic c now signed_request "DELEGATE_TASK"
  pub untampered : data_untampered c signed_request ≡ true
  pub request : DelegationRequest
  pub parsed : request_from_action_request now signed_request ≡ ok request
  pub unexpired : is_expired now request ≡ ok false
  pub addressed : request.to_agent_id ≡ str x.agent_id
  pub receipt_present : (x.requires_tee ≡ false) ⊎ (truthy request.tee_authorization ≡ true)
  pub receipt : (truthy request.tee_authorization ≡ false) ⊎ ReceiptHolds c false now x request
  pub fingerprinted : Fields
  pub key_derived :
      (receipt_or_empty request.tee_authorization ≡ ok fingerprinted)
      × (key ≡ some (replay_key_of c signed_request request fingerprinted))

module _ (c : Crypto) (now : ℕ) (x : Receiver) (signed_request : Fields) {s : String}
    {key : Option String} where
  receipt_verdict_ok :
      (m : Result Fields) (rest : Result Verdict)
      → receipt_verdict c m rest ≡ ok (true, s, key)
      → (f : Fields) × (m ≡ ok f) × (rest ≡ ok (true, s, key))
  unfolding receipt_verdict
  receipt_verdict_ok (ok f) rest h = (f, refl, h)
  receipt_verdict_ok (raised (runtime_error m)) rest h = absurd (cc)
  receipt_verdict_ok (raised (value_error m)) rest h = absurd (cc)
  receipt_verdict_ok (raised (type_error m)) rest h = absurd (cc)
  receipt_verdict_ok (raised (permission_error m)) rest h = absurd (cc)
  receipt_verdict_ok (raised (attribute_error m)) rest h = absurd (cc)
  receipt_verdict_ok (raised (os_error m)) rest h = absurd (cc)
  receipt_verdict_ok (raised (invalid_signature m)) rest h = absurd (cc)

  validate_receipt_ok :
      (r : DelegationRequest)
      → validate_receipt c false now x signed_request r ≡ ok (true, s, key)
      → ((truthy r.tee_authorization ≡ false) ⊎ ReceiptHolds c false now x r)
        × (validate_replay_key c signed_request r ≡ ok (true, s, key))
  unfolding validate_receipt
  validate_receipt_ok r h = elim (Bool-cases (truthy r.tee_authorization)) [
    | inr e ↦ (inl e, rw e at h)
    | inl e ↦
        let rest = validate_replay_key c signed_request r in
        let m =
          verify_tee_authorization_receipt c false now (expected_of c x r) r.tee_authorization in
        let checked = receipt_verdict c m rest in
        let with_build =
          demand (is_set x.build_config_id)
            "TEE authorization invalid: expected build_config_id is required" checked in
        let with_key_id =
          demand (is_set x.gateway_key_id)
            "TEE authorization invalid: expected gateway key id is required" with_build in
        let (a, h₁) =
          demand-true (is_set x.gateway_public_key_hex)
            "TEE authorization invalid: expected gateway public key is required" with_key_id
            (rw e at h) in
        let (b, h₂) =
          demand-true (is_set x.gateway_key_id)
            "TEE authorization invalid: expected gateway key id is required" with_build h₁ in
        let (d, h₃) =
          demand-true (is_set x.build_config_id)
            "TEE authorization invalid: expected build_config_id is required" checked h₂ in
        let (f, p, h₄) = receipt_verdict_ok m rest h₃ in (inr (a, b, d, (f, p)), h₄)
  ]

  validate_replay_key_ok :
      (r : DelegationRequest)
      → validate_replay_key c signed_request r ≡ ok (true, s, key)
      → (f : Fields) × (receipt_or_empty r.tee_authorization ≡ ok f)
        × (key ≡ some (replay_key_of c signed_request r f))
  unfolding validate_replay_key
  validate_replay_key_ok r h = elim (Result-cases (receipt_or_empty r.tee_authorization)) [
    | inr (e, p) ↦ absurd (ground arith)
    | inl (f, p) ↦ (f, p, ground arith)
  ]

  validate_request_ok :
      (r : DelegationRequest)
      → IsAuthentic c now signed_request "DELEGATE_TASK"
      → data_untampered c signed_request ≡ true
      → request_from_action_request now signed_request ≡ ok r
      → validate_request c false now x signed_request r ≡ ok (true, s, key)
      → IsAccepted c now x signed_request key
  unfolding validate_request
  validate_request_ok r auth data_ok parsed h =
      let last = validate_receipt c false now x signed_request r in
      let tee = not (x.requires_tee && not (truthy r.tee_authorization)) in
      let with_tee = demand tee "TEE authorization receipt required before worker execution" last in
      let mine = py_eq r.to_agent_id (str x.agent_id) in
      let with_target = demand mine "Delegation not addressed to this agent" with_tee in
      let (late, e, h₁) =
        >>=-eq-ok (is_expired now r)
          (λ l. demand (not l) "Delegation request has expired" with_target) h in
      let (a, h₂) = demand-true (not late) "Delegation request has expired" with_target h₁ in
      let (b, h₃) = demand-true mine "Delegation not addressed to this agent" with_tee h₂ in
      let (d, h₄) =
        demand-true tee "TEE authorization receipt required before worker execution" last h₃ in
      let (holds, h₅) = validate_receipt_ok r h₄ in
      let (f, p, k) = validate_replay_key_ok r h₅ in
      record {
        authentic = auth;
        untampered = data_ok;
        request = r;
        parsed = parsed;
        unexpired = ground arith;
        addressed = py_eq-str r.to_agent_id x.agent_id b;
        receipt_present = present x.requires_tee (truthy r.tee_authorization) d;
        receipt = holds;
        fingerprinted = f;
        key_derived = (p, k);
      }
    where
      present : (a b : Bool) → not (a && not b) ≡ true → (a ≡ false) ⊎ (b ≡ true)
      present true true d = inr refl
      present true false d = absurd (cc)
      present false b d = inl refl

  -- Outside mock mode, a request that the receiver accepts is authentic for the action DELEGATE_TASK, carries the data
  -- that was signed if a digest was signed, is unexpired and addressed to the receiver; a receipt is
  -- there if the receiver requires one, and whatever receipt is there authorizes this request; the
  -- replay key is the digest of its delegation id, request hash and receipt fingerprint.
  pub validate_delegation_request_sound :
      validate_delegation_request c false now x signed_request ≡ ok (true, s, key)
      → IsAccepted c now x signed_request key
  unfolding validate_delegation_request validate_data
  validate_delegation_request_sound h =
      let checks = validate_data c false now x signed_request in
      let (v, proved, h₁) =
        >>=-eq-ok (verify_action_request c false now signed_request "DELEGATE_TASK")
          (λ v. after_proof c v checks) h in
      let (valid, h₂) = demand-true v.0 "Signature verification failed" checks h₁ in
      let read = request_from_action_request now signed_request in
      let (data_ok, h₃) =
        demand-true (data_untampered c signed_request)
          "DELEGATION_DATA_TAMPERED: payload hash mismatch"
          (read >>= validate_request c false now x signed_request) h₂ in
      let (r, parsed, h₄) = >>=-eq-ok read (validate_request c false now x signed_request) h₃ in
      validate_request_ok r
        (verify_action_request_sound c now signed_request "DELEGATE_TASK" v.1
          (proved ∙ ap (λ b. ok (b, v.1)) valid))
        data_ok parsed h₄
