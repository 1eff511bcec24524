-- ===== src/Tee/Guarantees.antt =====
-- What an accepted receipt guarantees (src/tee_authorization.py).
use agent_delegation_network.Auth.Hashing.{digest}
use agent_delegation_network.Auth.Soundness.{IsAuthentic, verify_action_request_sound}
use agent_delegation_network.Auth.Verification.{parse_time, verify_action_request}
use agent_delegation_network.Crypto.{Crypto}
use agent_delegation_network.Json.{
  Fields, Json, arr, bool, get, is_str, null, num, obj, str, truthy,
}
use agent_delegation_network.Json.Equality.{is_null, py_eq}
use agent_delegation_network.Prelude.{
  >>-eq-ok, >>=-eq-ok, Bool, Bool-cases, Option, Option-cases, Result, Result-cases, String, ap,
  arith, false, inl, inr, none, ok, refl, some, true, ℕ, ◌==◌, ◌>>=◌, ◌>>◌, ◌∙◌, ◌≡◌, ◌≤◌, ◌⊎◌,
}
use agent_delegation_network.Tee.Checks.{
  Expected, as_dict, check_build, check_credential, check_parameters, check_proof, check_request,
  check_signed, check_window, is_true, verify_receipt, verify_tee_authorization_receipt,
}
use agent_delegation_network.Tee.Receipt.{
  receipt_action, receipt_body, receipt_version, tee_authorization_request_hash,
}

abbrev pub RequestMatches : Expected → Fields → Type 0
RequestMatches x body =
    (is_str receipt_version (get "v" body) ≡ true)
    × (is_str "ROUTED" (get "status" body) ≡ true)
    × (py_eq (get "delegation_id" body) x.delegation_id ≡ true)
    × (py_eq (get "tee_delegation_id" body) x.delegation_id ≡ true)
    × (py_eq (get "to_agent_id" body) x.to_agent_id ≡ true)
    × (py_eq (get "action" body) x.action ≡ true)

check_request_ok :
    (x : Expected) (body : Fields) → check_request x body ≡ ok tt → RequestMatches x body
unfolding check_request
check_request_ok x body h = ground arith

abbrev pub CredentialMatches : Expected → Fields → Type 0
CredentialMatches x body =
    (truthy (get "credential_fingerprint" body) ≡ true)
    × (is_true (get "credential_enforced" body) ≡ true)
    × (truthy (get "tee_result_digest" body) ≡ true)
    × ((x.gateway_key_id == "") ≡ false)
    × (is_str x.gateway_key_id (get "gateway_key_id" body) ≡ true)

check_credential_ok :
    (x : Expected) (body : Fields) → check_credential x body ≡ ok tt → CredentialMatches x body
unfolding check_credential
check_credential_ok x body h = ground arith

check_build_ok :
    (x : Expected) (body : Fields)
    → check_build x body ≡ ok tt
    → ((x.build_config_id == "") ≡ false)
      × (is_str x.build_config_id (get "build_config_id" body) ≡ true)
unfolding check_build
check_build_ok x body h = ground arith

-- The receipt answers the expectations field by field, its authorization has not ended, its request
-- hash is that of the expected parameters, and the expected gateway key signed its body.
pub record Authorizes (c : Crypto) (mock : Bool) (now : ℕ) (x : Expected) (receipt : Fields)
    : Type 0 where
  pub request : RequestMatches x (receipt_body receipt)
  pub credential : CredentialMatches x (receipt_body receipt)
  pub build : is_str x.build_config_id (get "build_config_id" (receipt_body receipt)) ≡ true
  pub expires : ℕ
  pub expiry :
      parse_time c (get "authorization_expires_at" (receipt_body receipt)) ≡ ok (some expires)
  pub unexpired : now ≤ expires
  pub parameters :
      (is_null x.parameters ≡ true)
      ⊎ (is_str
            (tee_authorization_request_hash c x.to_agent_id x.action x.parameters)
            (get "request_hash" (receipt_body receipt))
          ≡ true)
  pub proof : Fields
  pub proof_given : get "gateway_proof" receipt ≡ obj proof
  pub gateway_key : is_str x.gateway_pubkey_hex (get "gateway_public_key_hex" receipt) ≡ true
  pub proof_key : is_str x.gateway_pubkey_hex (get "public_key_hex" proof) ≡ true
  pub verdict : String
  pub verified : verify_action_request c mock now proof receipt_action ≡ ok (true, verdict)
  pub body_signed : is_str (digest c (obj (receipt_body receipt))) (get "data_hash" proof) ≡ true

record ProofFacts (c : Crypto) (mock : Bool) (now : ℕ) (x : Expected) (receipt body : Fields)
    : Type 0 where
  proof : Fields
  proof_given : get "gateway_proof" receipt ≡ obj proof
  gateway_key : is_str x.gateway_pubkey_hex (get "gateway_public_key_hex" receipt) ≡ true
  proof_key : is_str x.gateway_pubkey_hex (get "public_key_hex" proof) ≡ true
  verdict : String
  verified : verify_action_request c mock now proof receipt_action ≡ ok (true, verdict)
  body_signed : is_str (digest c (obj body)) (get "data_hash" proof) ≡ true

as_dict_obj : (v : Json) (fs : Fields) → as_dict v ≡ some fs → v ≡ obj fs
as_dict_obj (obj gs) fs h = ground arith
as_dict_obj null fs h = cc
as_dict_obj (bool b) fs h = cc
as_dict_obj (num n) fs h = cc
as_dict_obj (str s) fs h = cc
as_dict_obj (arr xs) fs h = cc

module _ (c : Crypto) (mock : Bool) (now : ℕ) (x : Expected) (receipt body : Fields) where
  check_signed_ok :
      (proof : Fields)
      → get "gateway_proof" receipt ≡ obj proof
      → check_signed c mock now x receipt body proof ≡ ok tt
      → ProofFacts c mock now x receipt body
  unfolding check_signed
  check_signed_ok proof given_proof h =
      elim (Result-cases (verify_action_request c mock now proof receipt_action)) [
        | inr (e, p) ↦ absurd (ground arith)
        | inl ((valid, s), p) ↦ record {
          proof = proof;
          proof_given = given_proof;
          gateway_key = ground arith;
          proof_key = ground arith;
          verdict = s;
          verified = p ∙ ground arith;
          body_signed = ground arith;
        }
      ]

  check_proof_ok :
      check_proof c mock now x receipt body ≡ ok tt → ProofFacts c mock now x receipt body
  unfolding check_proof
  check_proof_ok h = elim (Option-cases (as_dict (get "gateway_proof" receipt))) [
    | inl e ↦ absurd (ground arith)
    | inr (proof, e) ↦
        check_signed_ok proof (as_dict_obj (get "gateway_proof" receipt) proof e) (ground arith)
  ]

check_parameters_ok :
    (c : Crypto) (x : Expected) (body : Fields)
    → check_parameters c x body ≡ ok tt
    → (is_null x.parameters ≡ true)
      ⊎ (is_str
            (tee_authorization_request_hash c x.to_agent_id x.action x.parameters)
            (get "request_hash" body)
          ≡ true)
unfolding check_parameters
check_parameters_ok c x body h = elim (Bool-cases (is_null x.parameters)) [
  | inl e ↦ inl e
  | inr e ↦ inr (ground arith)
]

module _ (c : Crypto) (mock : Bool) (now : ℕ) (x : Expected) (receipt : Fields) where
  verify_receipt_ok :
      (r : Fields)
      → verify_receipt c mock now x receipt ≡ ok r
      → Authorizes c mock now x receipt × (r ≡ receipt)
  unfolding verify_receipt check_window
  verify_receipt_ok r h =
      let body = receipt_body receipt in
      let tail = check_proof c mock now x receipt body >> ok receipt in
      let built = check_build x body >> (check_parameters c x body >> tail) in
      let timed : Result Fields =
        parse_time c (get "authorization_expires_at" body) >>= λ e. check_window now e >> built in
      let (request, h₁) = >>-eq-ok (check_request x body) (check_credential x body >> timed) h in
      let (credential, h₂) = >>-eq-ok (check_credential x body) timed h₁ in
      let (e, parsed, h₃) =
        >>=-eq-ok (parse_time c (get "authorization_expires_at" body))
          (λ e. check_window now e >> built) h₂ in
      let (window, h₄) = >>-eq-ok (check_window now e) built h₃ in
      let (build, h₅) = >>-eq-ok (check_build x body) (check_parameters c x body >> tail) h₄ in
      let (params, h₆) = >>-eq-ok (check_parameters c x body) tail h₅ in
      let (checked, h₇) = >>-eq-ok (check_proof c mock now x receipt body) (ok receipt) h₆ in
      let k = check_proof_ok c mock now x receipt body checked in
      let (t, te, late) = in_window e window in
      (
        record {
          request = check_request_ok x body request;
          credential = check_credential_ok x body credential;
          build = (check_build_ok x body build).1;
          expires = t;
          expiry = parsed ∙ ap ok te;
          unexpired = late;
          parameters = check_parameters_ok c x body params;
          proof = k.proof;
          proof_given = k.proof_given;
          gateway_key = k.gateway_key;
          proof_key = k.proof_key;
          verdict = k.verdict;
          verified = k.verified;
          body_signed = k.body_signed;
        },
        ground arith,
      )
    where
      in_window : (e : Option ℕ) → check_window now e ≡ ok tt → (t : ℕ) × (e ≡ some t) × (now ≤ t)
      in_window none w = absurd (cc)
      in_window (some t) w = (t, refl, ground arith)

  pub verify_tee_authorization_receipt_ok :
      (r : Fields)
      → verify_tee_authorization_receipt c mock now x (obj receipt) ≡ ok r
      → Authorizes c mock now x receipt × (r ≡ receipt)
  unfolding verify_tee_authorization_receipt
  verify_tee_authorization_receipt_ok r h = verify_receipt_ok r h

-- Outside mock mode, a receipt is accepted only if it authorizes what was expected: its version,
-- status, ids, action, credential, gateway key id and build answer the expectations, its authorization
-- has not ended, its request hash is that of the expected parameters (if any are given), its gateway
-- proof carries the digest of its body and the expected gateway key, and that proof is authentic: the
-- key of the proof signed it (Ed25519). The receipt is returned unchanged.
pub verify_tee_authorization_receipt_sound :
    (c : Crypto) (now : ℕ) (x : Expected) (receipt r : Fields)
    → verify_tee_authorization_receipt c false now x (obj receipt) ≡ ok r
    → (a : Authorizes c false now x receipt) × IsAuthentic c now a.proof receipt_action
      × (r ≡ receipt)
verify_tee_authorization_receipt_sound c now x receipt r h =
    let (a, same) = verify_tee_authorization_receipt_ok c false now x receipt r h in
    (a, verify_action_request_sound c now a.proof receipt_action a.verdict a.verified, same)
