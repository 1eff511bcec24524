-- ===== src/Protocol/RoundTrip.antt =====
-- Sending a request or a result and reading it back (src/delegation_protocol.py).
use agent_delegation_network.Auth.Signing.{Signer, sign_action_request}
use agent_delegation_network.Crypto.{Crypto}
use agent_delegation_network.Json.{
  Fields, Json, arr, bool, end, get, get_or, is_str, null, num, obj, str,
}
use agent_delegation_network.Json.Equality.{is_null}
use agent_delegation_network.Prelude.{
  Bool, Bool-cases, String, ap, false, inl, inr, ok, refl, true, ℕ, ◌∙◌, ◌≡◌,
}
use agent_delegation_network.Protocol.Messages.{
  DelegationRequest, DelegationResult, DelegationStatus, completed, failed, in_progress, is_zero,
  pending, post_init_request, post_init_result, receipt_field, request_from_action_request,
  request_from_fields, request_payload, request_to_action_request, result_from_action_request,
  result_payload, result_to_action_request, revoked, status_of, status_value,
}

null_eq : (v : Json) → is_null v ≡ true → v ≡ null
null_eq null h = refl
null_eq (bool b) h = cc
null_eq (num n) h = cc
null_eq (str s) h = cc
null_eq (arr xs) h = cc
null_eq (obj fs) h = cc

get-receipt_field : (v : Json) → get "tee_authorization" (receipt_field v) ≡ v
unfolding get
get-receipt_field v = elim (Bool-cases (is_null v)) [
  | inl e ↦ rw (null_eq v e)
  | inr e ↦ rw (e, get)
]

-- Reading the payload of a request gives the request.
pub request_from_payload :
    (r : DelegationRequest) (signed_request : Fields)
    → request_from_fields signed_request (request_payload r) ≡ r
unfolding request_from_fields request_payload get
request_from_payload r signed_request =
    λ i. record r { tee_authorization = get-receipt_field r.tee_authorization i }

-- The request has its times and its capabilities, so that `__post_init__` has nothing to fill in.
pub record IsFilled (r : DelegationRequest) : Type 0 where
  pub issued : is_zero r.issued_at ≡ false
  pub expiring : is_zero r.expires_at ≡ false
  pub capable : is_null r.required_capabilities ≡ false

pub post_init_request_filled :
    (now : ℕ) (r : DelegationRequest) → IsFilled r → post_init_request now r ≡ ok r
unfolding post_init_request
post_init_request_filled now r h = rw (h.issued, h.expiring, h.capable)

module _ (c : Crypto) (did : String) (s : Signer) where
  sent_data :
      (mock : Bool) (now : ℕ) (r : DelegationRequest)
      → get_or (obj end) "delegation_data" (request_to_action_request c mock did s now r)
        ≡ obj (request_payload r)
  unfolding request_to_action_request sign_action_request get_or
  sent_data true now r = refl
  sent_data false now r = refl

  -- A request that has its times and capabilities is read back from the signed message as it was
  -- sent, every field included.
  pub request_round_trip :
      (mock : Bool) (now later : ℕ) (r : DelegationRequest)
      → IsFilled r
      → request_from_action_request later (request_to_action_request c mock did s now r) ≡ ok r
  unfolding request_from_action_request
  request_round_trip mock now later r h = rw (sent_data mock now r) (
      ap (post_init_request later)
        (request_from_payload r (request_to_action_request c mock did s now r))
      ∙ post_init_request_filled later r h)

  sent_result :
      (mock : Bool) (now : ℕ) (r : DelegationResult)
      → get_or (obj end) "result_data" (result_to_action_request c mock did s now r)
        ≡ obj (result_payload r)
  unfolding result_to_action_request sign_action_request get_or
  sent_result true now r = refl
  sent_result false now r = refl

  status_round_trip : (st : DelegationStatus) → status_of (str (status_value st)) ≡ ok st
  unfolding status_of is_str
  status_round_trip pending = refl
  status_round_trip in_progress = refl
  status_round_trip completed = refl
  status_round_trip failed = refl
  status_round_trip revoked = refl

  -- A result with a nonce and a time is read back from the signed message as it was sent.
  pub result_round_trip :
      (mock : Bool) (now later : ℕ) (fresh : String) (r : DelegationResult)
      → is_null r.nonce ≡ false
      → is_null r.issued_at ≡ false
      → result_from_action_request later fresh (result_to_action_request c mock did s now r) ≡ ok r
  unfolding result_from_action_request post_init_result result_payload get
  result_round_trip mock now later fresh r n t = rw (sent_result mock now r) (
      rw (status_round_trip r.status) (
        rw (n, t)
          (λ i. ok (record r { tee_authorization = get-receipt_field r.tee_authorization i }))))
