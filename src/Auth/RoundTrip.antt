-- ===== src/Auth/RoundTrip.antt =====
-- Signing and then verifying (src/terminal3_agent_auth_adapter.py).
use agent_delegation_network.Auth.Hashing.{digest, key_fingerprint}
use agent_delegation_network.Auth.Signing.{Signer, proof_ttl, sign_action_request}
use agent_delegation_network.Auth.Verification.{
  has_length, parse_time, payload_of, signature_ok, verify_action_request, verify_expiry,
  verify_fingerprint, verify_key, verify_live, verify_payload, verify_signature,
}
use agent_delegation_network.Crypto.{Crypto, aware}
use agent_delegation_network.Json.{Fields, Json, append, get, is_str, obj, str}
use agent_delegation_network.Prelude.{
  List, Option, String, arith, eq_refl, false, length, ltb, none, ok, refl, some, true, ℕ, ◌+◌, ◌<◌,
  ◌≡◌, ◌≤◌,
}

-- The documented behaviour of the key pair and of the ISO times that a signature relies on: the public
-- key has 32 bytes and its fingerprint is the agent id, a signature has 64 bytes and verifies, and a
-- printed time reads back.
pub record IsKeyPair (c : Crypto) (s : Signer) : Type 0 where
  pub key : List ℕ
  pub key_decoded : c.from_hex s.pub_hex ≡ some key
  pub key_length : length key ≡ 32
  pub fingerprint : key_fingerprint c s.pub_hex ≡ ok s.agent_id
  pub signature : String → List ℕ
  pub signature_decoded :
      (message : String) → c.from_hex (c.sign s.private_key message) ≡ some (signature message)
  pub signature_length : (message : String) → length (signature message) ≡ 64
  pub verifies : (message : String) → c.verify key (signature message) message ≡ true

abbrev pub ReadsBack : Crypto → Type 0
ReadsBack c = (t : ℕ) → c.from_iso_format (c.iso_format t) ≡ some (aware t)

length_has : (n : ℕ) (bytes : List ℕ) → length bytes ≡ n → has_length n bytes ≡ true
length_has n bytes h = ground arith

module _ (c : Crypto) (s : Signer) (reads : ReadsBack c) (pair : IsKeyPair c s) where
  open pair use {
    key, key_decoded, key_length, fingerprint, signature, signature_decoded, signature_length,
    verifies,
  }

  -- The checks on the key accept what the signer signed.
  pub key_accepted :
      (proof : Fields)
      → get "agent_id" proof ≡ str s.agent_id
      → get "signature_hex" proof ≡ str (c.sign s.private_key (digest c (obj (payload_of proof))))
      → verify_live c proof (str s.pub_hex) ≡ ok (true, "")
  unfolding verify_live verify_key verify_fingerprint verify_signature signature_ok is_str
  key_accepted proof own sig =
      let d = digest c (obj (payload_of proof)) in
      rw key_decoded (
        rw (length_has 32 key key_length) (
          rw fingerprint (
            rw own (
              rw (eq_refl s.agent_id) (
                rw sig (
                  rw (signature_decoded d) (
                    rw (length_has 64 (signature d) (signature_length d))
                      (rw (verifies d) refl))))))))

  module _ (action : String) (nonce : Json) (now later : ℕ) where
    pub on_time : later ≤ now + proof_ttl → ltb (now + proof_ttl) later ≡ false
    on_time t = ground arith

    too_late : now + proof_ttl < later → ltb (now + proof_ttl) later ≡ true
    too_late t = ground arith

    -- What an agent signed with bound data is accepted for its action up to the end of its five
    -- minutes, also with further fields `rest` beside the proof.
    pub signed_verifies_with :
        (v : Json) (rest : Fields)
        → later ≤ now + proof_ttl
        → verify_action_request c false later
            (append (sign_action_request c false "" action nonce (some v) s now) rest)
            action
          ≡ ok (true, "")
    unfolding verify_action_request verify_expiry verify_payload sign_action_request is_str
        parse_time get payload_of
    signed_verifies_with v rest t =
        let signed = append (sign_action_request c false "" action nonce (some v) s now) rest in
        rw (eq_refl action) (
          rw (reads (now + proof_ttl)) (
            rw (on_time t)
              (rw (eq_refl (digest c (obj (payload_of signed)))) (key_accepted signed refl refl))))

    -- A request that an agent signed, with or without bound data, is accepted for its action up to
    -- the end of its five minutes.
    pub signed_verifies :
        (data' : Option Json)
        → later ≤ now + proof_ttl
        → verify_action_request c false later
            (sign_action_request c false "" action nonce data' s now)
            action
          ≡ ok (true, "")
    unfolding verify_action_request verify_expiry verify_payload sign_action_request is_str
        parse_time get payload_of
    signed_verifies none t =
        let signed = sign_action_request c false "" action nonce none s now in
        rw (eq_refl action) (
          rw (reads (now + proof_ttl)) (
            rw (on_time t)
              (rw (eq_refl (digest c (obj (payload_of signed)))) (key_accepted signed refl refl))))
    signed_verifies (some v) t =
        let signed = sign_action_request c false "" action nonce (some v) s now in
        rw (eq_refl action) (
          rw (reads (now + proof_ttl)) (
            rw (on_time t)
              (rw (eq_refl (digest c (obj (payload_of signed)))) (key_accepted signed refl refl))))

    -- After that it is refused as expired.
    pub signed_expires :
        (data' : Option Json)
        → now + proof_ttl < later
        → verify_action_request c false later
            (sign_action_request c false "" action nonce data' s now)
            action
          ≡ ok (false, "PROOF_EXPIRED")
    unfolding verify_action_request verify_expiry sign_action_request is_str parse_time get
    signed_expires none t =
        rw (eq_refl action) (rw (reads (now + proof_ttl)) (rw (too_late t) refl))
    signed_expires (some v) t =
        rw (eq_refl action) (rw (reads (now + proof_ttl)) (rw (too_late t) refl))
