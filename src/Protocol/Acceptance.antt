-- ===== src/Protocol/Acceptance.antt =====
-- Which requests are accepted, and which of their fields the signature does not cover
-- (src/delegation_protocol.py).
use agent_delegation_network.Auth.Hashing.{digest}
use agent_delegation_network.Auth.RoundTrip.{
  IsKeyPair, ReadsBack, key_accepted, on_time, signed_verifies_with,
}
use agent_delegation_network.Auth.Signing.{Signer, proof_ttl, sign_action_request}
use agent_delegation_network.Auth.Verification.{
  parse_time, payload_of, verify_action_request, verify_expiry, verify_payload,
}
use agent_delegation_network.Crypto.{Crypto}
use agent_delegation_network.Json.{
  Fields, Json, append, end, field, get, get_or, has, is_str, null, num, obj, str, truthy,
}
use agent_delegation_network.Json.Equality.{py_eq-str_self}
use agent_delegation_network.Prelude.{
  String, ap, arith, eq_refl, false, ltb, none, ok, refl, some, str_ne, true, ℕ, ◌+◌, ◌∙◌, ◌≡◌, ◌≢◌,
  ◌≤◌,
}
use agent_delegation_network.Protocol.Messages.{
  DelegationRequest, is_expired, post_init_request, request_from_action_request, request_payload,
  request_to_action_request,
}
use agent_delegation_network.Protocol.RoundTrip.{
  IsFilled, post_init_request_filled, request_from_payload, request_round_trip,
}
use agent_delegation_network.Protocol.Validation.{
  Receiver, data_untampered, replay_key_of, validate_data, validate_delegation_request,
  validate_receipt, validate_replay_key, validate_request,
}

-- A request that was filled in by its sender, is addressed to the receiver, has not expired at `later`
-- and carries no receipt, for a receiver that requires none.
pub record IsPlain (x : Receiver) (later : ℕ) (r : DelegationRequest) : Type 0 where
  pub filled : IsFilled r
  pub expires : ℕ
  pub expiry : r.expires_at ≡ num expires
  pub unexpired : later ≤ expires
  pub addressed : r.to_agent_id ≡ str x.agent_id
  pub no_receipt : r.tee_authorization ≡ null
  pub waived : x.requires_tee ≡ false

abbrev pub valid_message : String
valid_message = "Delegation request is valid"

module _ (c : Crypto) (nonempty : (v : Json) → digest c v ≢ "") where
  -- The checks after the signature.
  validate_request-plain :
      (x : Receiver) (later : ℕ) (r : DelegationRequest) (signed_request : Fields)
      → IsPlain x later r
      → validate_request c false later x signed_request r
        ≡ ok (true, valid_message, some (replay_key_of c signed_request r end))
  unfolding validate_request is_expired validate_receipt validate_replay_key replay_key_of truthy
      digest
  validate_request-plain x later r signed_request p = rw p.expiry (
      rw (early p.expires p.unexpired) (
        rw p.addressed (
          rw (py_eq-str_self x.agent_id) (
            rw p.waived (
              rw p.no_receipt
                (rw (str_ne (replay_key_of c signed_request r end) "" (nonempty _)) refl))))))
    where
      early : (t : ℕ) → later ≤ t → ltb t later ≡ false
      early t h = ground arith

  module _ (s : Signer) (reads : ReadsBack c) (pair : IsKeyPair c s) where
    untampered_sent :
        (now : ℕ) (r : DelegationRequest)
        → data_untampered c (request_to_action_request c false "" s now r) ≡ true
    unfolding data_untampered request_to_action_request sign_action_request get is_str has
    untampered_sent now r = rw (eq_refl (digest c (obj (request_payload r))))

    -- A plain request that any key pair signs is accepted for five minutes, whatever agent it names
    -- as its sender: the sender's id is not compared with the signer's.
    pub signed_request_accepted :
        (x : Receiver) (now later : ℕ) (r : DelegationRequest)
        → later ≤ now + proof_ttl
        → IsPlain x later r
        → validate_delegation_request c false later x (request_to_action_request c false "" s now r)
          ≡ ok (
            true,
            valid_message,
            some (replay_key_of c (request_to_action_request c false "" s now r) r end),
          )
    unfolding validate_delegation_request validate_data
    signed_request_accepted x now later r t p =
        let sent = request_to_action_request c false "" s now r in
        let proved : verify_action_request c false later sent "DELEGATE_TASK" ≡ ok (true, "") =
          unfold request_to_action_request in
          signed_verifies_with c s reads pair "DELEGATE_TASK" r.nonce now later
            (obj (request_payload r)) (field "delegation_data" (obj (request_payload r)) end) t in
        rw proved (
          rw (untampered_sent now r) (
            rw (request_round_trip c "" s false now later r p.filled)
              (validate_request-plain x later r sent p)))

    -- What the holder of a proof that was signed with no data sends with data of its own choice.
    abbrev pub unbound : ℕ → Json → DelegationRequest → Fields
    unbound now nonce r =
        append (sign_action_request c false "" "DELEGATE_TASK" nonce none s now)
          (field "delegation_data" (obj (request_payload r)) end)

    unbound_verifies :
        (now later : ℕ) (nonce : Json) (r : DelegationRequest)
        → later ≤ now + proof_ttl
        → verify_action_request c false later (unbound now nonce r) "DELEGATE_TASK" ≡ ok (true, "")
    unfolding verify_action_request verify_expiry verify_payload sign_action_request is_str
        parse_time get payload_of
    unbound_verifies now later nonce r t = rw (reads (now + proof_ttl)) (
        rw (on_time c s reads pair "DELEGATE_TASK" nonce now later t) (
          rw (eq_refl (digest c (obj (payload_of (unbound now nonce r)))))
            (key_accepted c s reads pair (unbound now nonce r) refl refl)))

    unbound_read :
        (now later : ℕ) (nonce : Json) (r : DelegationRequest)
        → IsFilled r
        → request_from_action_request later (unbound now nonce r) ≡ ok r
    unfolding request_from_action_request sign_action_request get_or append
    unbound_read now later nonce r h =
        ap (post_init_request later) (request_from_payload r (unbound now nonce r))
        ∙ post_init_request_filled later r h

    -- A proof that an agent signed for DELEGATE_TASK with no data is accepted with any plain request
    -- attached to it: the digest of the data is compared only if the proof has one.
    pub unbound_request_accepted :
        (x : Receiver) (now later : ℕ) (nonce : Json) (r : DelegationRequest)
        → later ≤ now + proof_ttl
        → IsPlain x later r
        → validate_delegation_request c false later x (unbound now nonce r)
          ≡ ok (true, valid_message, some (replay_key_of c (unbound now nonce r) r end))
    unfolding validate_delegation_request validate_data data_untampered has sign_action_request
        append
    unbound_request_accepted x now later nonce r t p = rw (unbound_verifies now later nonce r t) (
        rw (unbound_read now later nonce r p.filled)
          (validate_request-plain x later r (unbound now nonce r) p))
