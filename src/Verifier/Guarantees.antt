-- ===== src/Verifier/Guarantees.antt =====
-- What a worker's result that the coordinator accepts guarantees (src/result_verifier.py).
use agent_delegation_network.Auth.Hashing.{digest}
use agent_delegation_network.Auth.Soundness.{IsAuthentic, verify_action_request_sound}
use agent_delegation_network.Auth.Verification.{verify_action_request}
use agent_delegation_network.Crypto.{Crypto}
use agent_delegation_network.Json.{Fields, Json, arr, bool, get, is_str, null, num, obj, str}
use agent_delegation_network.Json.Equality.{py_eq}
use agent_delegation_network.Prelude.{
  >>-eq-ok, >>=-eq-ok, Bool, Result-cases, String, ap, arith, false, inl, inr, not, ok, raise_if,
  runtime_error, subst, sym, true, ℕ, ◌==◌, ◌>>=◌, ◌>>◌, ◌∙◌, ◌≡◌,
}
use agent_delegation_network.Protocol.Messages.{expect_dict}
use agent_delegation_network.Tee.Checks.{verify_tee_authorization_receipt}
use agent_delegation_network.Tee.Guarantees.{Authorizes, verify_tee_authorization_receipt_ok}
use agent_delegation_network.Tee.Receipt.{receipt_fingerprint}
use agent_delegation_network.Verifier.Verification.{
  Expectation, check_arguments, check_envelope, check_parties, check_receipt, check_result,
  expected_receipt, result_data,
}

-- The worker signed the result for this coordinator and this delegation, the digest covers the data,
-- and the receipt in the data is the one that the coordinator holds, which authorizes the work.
pub record IsGenuine (c : Crypto) (now : ℕ) (x : Expectation) (proof rd : Fields) : Type 0 where
  pub authentic : IsAuthentic c now proof "TASK_RESULT"
  pub signer_key : is_str x.worker_pubkey_hex (get "public_key_hex" proof) ≡ true
  pub signer : is_str x.worker_id (get "agent_id" proof) ≡ true
  pub bound : is_str (digest c (result_data proof)) (get "data_hash" proof) ≡ true
  pub data_read : result_data proof ≡ obj rd
  pub nonce : py_eq (get "nonce" proof) (get "nonce" rd) ≡ true
  pub sender : is_str x.worker_id (get "from_agent_id" rd) ≡ true
  pub addressee : is_str x.coordinator_id (get "to_agent_id" rd) ≡ true
  pub delegation : is_str x.delegation_id (get "delegation_id" rd) ≡ true
  pub status : is_str "COMPLETED" (get "status" rd) ≡ true
  pub receipt : Fields
  pub receipt_given : get "tee_authorization" rd ≡ obj receipt
  pub held : Fields
  pub held_given : x.tee_authorization ≡ obj held
  pub same_receipt : (receipt_fingerprint c receipt == receipt_fingerprint c held) ≡ true
  pub authorized : Authorizes c false now (expected_receipt x) receipt

pub expect_dict-eq-ok : (v : Json) (fs : Fields) → expect_dict v ≡ ok fs → v ≡ obj fs
expect_dict-eq-ok (obj gs) fs h = ground arith
expect_dict-eq-ok null fs h = absurd (cc)
expect_dict-eq-ok (bool b) fs h = absurd (cc)
expect_dict-eq-ok (num n) fs h = absurd (cc)
expect_dict-eq-ok (str s) fs h = absurd (cc)
expect_dict-eq-ok (arr xs) fs h = absurd (cc)

module _ (c : Crypto) (mock : Bool) (now : ℕ) (x : Expectation) (proof : Fields) where
  check_envelope_ok :
      check_envelope c mock now x proof ≡ ok tt
      → ((s : String) × (verify_action_request c mock now proof "TASK_RESULT" ≡ ok (true, s)))
        × (is_str x.worker_pubkey_hex (get "public_key_hex" proof) ≡ true)
        × (is_str x.worker_id (get "agent_id" proof) ≡ true)
        × (is_str (digest c (result_data proof)) (get "data_hash" proof) ≡ true)
  unfolding check_envelope
  check_envelope_ok h = elim (Result-cases (verify_action_request c mock now proof "TASK_RESULT")) [
    | inr (e, p) ↦ absurd (ground arith)
    | inl ((valid, s), p) ↦ ((s, p ∙ ground arith), ground arith, ground arith, ground arith)
  ]

  check_parties_ok :
      (rd : Fields)
      → check_parties x proof rd ≡ ok tt
      → (py_eq (get "nonce" proof) (get "nonce" rd) ≡ true)
        × (is_str x.worker_id (get "from_agent_id" rd) ≡ true)
        × (is_str x.coordinator_id (get "to_agent_id" rd) ≡ true)
        × (is_str x.delegation_id (get "delegation_id" rd) ≡ true)
        × (is_str "COMPLETED" (get "status" rd) ≡ true)
  unfolding check_parties
  check_parties_ok rd h = ground arith

  pub check_receipt_ok :
      (rd r : Fields)
      → check_receipt c mock now x rd ≡ ok r
      → (get "tee_authorization" rd ≡ obj r)
        × Authorizes c mock now (expected_receipt x) r
        × ((held : Fields) × (x.tee_authorization ≡ obj held)
            × ((receipt_fingerprint c r == receipt_fingerprint c held) ≡ true))
  unfolding check_receipt
  check_receipt_ok rd r h =
      let checked = λ (receipt : Fields). λ (held : Fields).
        raise_if (not (receipt_fingerprint c receipt == receipt_fingerprint c held))
          (runtime_error "result TEE authorization receipt mismatch")
        >> verify_tee_authorization_receipt c mock now (expected_receipt x) (obj receipt) in
      let (receipt, p₁, h₁) =
        >>=-eq-ok (expect_dict (get "tee_authorization" rd))
          (λ receipt. expect_dict x.tee_authorization >>= checked receipt) h in
      let (held, p₂, h₂) = >>=-eq-ok (expect_dict x.tee_authorization) (checked receipt) h₁ in
      let (p₃, h₃) =
        >>-eq-ok
          (raise_if (not (receipt_fingerprint c receipt == receipt_fingerprint c held))
            (runtime_error "result TEE authorization receipt mismatch"))
          (verify_tee_authorization_receipt c mock now (expected_receipt x) (obj receipt)) h₂ in
      let (a, same) =
        verify_tee_authorization_receipt_ok c mock now (expected_receipt x) receipt r h₃ in
      (
        expect_dict-eq-ok (get "tee_authorization" rd) receipt p₁ ∙ ap obj (sym same),
        subst (Authorizes c mock now (expected_receipt x)) (sym same) a,
        (
          held,
          expect_dict-eq-ok x.tee_authorization held p₂,
          subst (λ (z : Fields). (receipt_fingerprint c z == receipt_fingerprint c held) ≡ true)
              (sym same) (ground arith),
        ),
      )

  -- The data and the receipt that the checks return.
  pub check_result_read :
      (rd r : Fields)
      → check_result c mock now x proof ≡ ok (rd, r)
      → (check_envelope c mock now x proof ≡ ok tt)
        × (result_data proof ≡ obj rd)
        × (check_parties x proof rd ≡ ok tt)
        × (check_receipt c mock now x rd ≡ ok r)
  unfolding check_result
  check_result_read rd r h =
      let last = λ (d : Fields). check_receipt c mock now x d >>= λ receipt. ok (d, receipt) in
      let parties = λ (d : Fields). check_parties x proof d >> last d in
      let reading = expect_dict (result_data proof) >>= parties in
      let (p₁, h₁) =
        >>-eq-ok (check_arguments x) (check_envelope c mock now x proof >> reading) h in
      let (p₂, h₂) = >>-eq-ok (check_envelope c mock now x proof) reading h₁ in
      let (d, p₃, h₃) = >>=-eq-ok (expect_dict (result_data proof)) parties h₂ in
      let (p₄, h₄) = >>-eq-ok (check_parties x proof d) (last d) h₃ in
      let (receipt, p₅, h₅) =
        >>=-eq-ok (check_receipt c mock now x d) (λ receipt. ok (d, receipt)) h₄ in
      let e : d ≡ rd = ground arith in
      let e' : receipt ≡ r = ground arith in
      (
        p₂,
        expect_dict-eq-ok (result_data proof) d p₃ ∙ ap obj e,
        subst (λ z. check_parties x proof z ≡ ok tt) e p₄,
        subst (λ z. check_receipt c mock now x rd ≡ ok z) e'
            (subst (λ z. check_receipt c mock now x z ≡ ok receipt) e p₅),
      )

module _ (c : Crypto) (now : ℕ) (x : Expectation) (proof : Fields) where
  pub check_result-IsGenuine :
      (rd r : Fields) → check_result c false now x proof ≡ ok (rd, r) → IsGenuine c now x proof rd
  check_result-IsGenuine rd r h =
      let (p₁, read, p₂, p₃) = check_result_read c false now x proof rd r h in
      let ((s, verified), key, id, bound) = check_envelope_ok c false now x proof p₁ in
      let (nonce, sender, addressee, delegation, status) =
        check_parties_ok c false now x proof rd p₂ in
      let (given_receipt, authorized, (held, held_given, same)) =
        check_receipt_ok c false now x proof rd r p₃ in
      record {
        authentic = verify_action_request_sound c now proof "TASK_RESULT" s verified;
        signer_key = key;
        signer = id;
        bound = bound;
        data_read = read;
        nonce = nonce;
        sender = sender;
        addressee = addressee;
        delegation = delegation;
        status = status;
        receipt = r;
        receipt_given = given_receipt;
        held = held;
        held_given = held_given;
        same_receipt = same;
        authorized = authorized;
      }
