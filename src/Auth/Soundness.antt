-- ===== src/Auth/Soundness.antt =====
-- What an accepted proof guarantees (src/terminal3_agent_auth_adapter.py).
use agent_delegation_network.Auth.Hashing.{digest, key_fingerprint}
use agent_delegation_network.Auth.Signing.{audience}
use agent_delegation_network.Auth.Verification.{
  has_length, invalid, parse_time, payload_of, required_fields, signature_ok, verify_action_request,
  verify_expiry, verify_fingerprint, verify_key, verify_live, verify_payload, verify_signature,
}
use agent_delegation_network.Crypto.{Crypto}
use agent_delegation_network.Json.{
  Fields, Json, arr, bool, get, has_all, is_str, null, num, obj, str,
}
use agent_delegation_network.Json.Equality.{is_str→eq}
use agent_delegation_network.Prelude.{
  >>=-eq-ok, List, Option, Result, String, arith, false, length, ltb, none, not, ok, raised, refl,
  require, require-true, some, true, ℕ, ◌>>=◌, ◌≡◌, ◌≤◌,
}

-- The proof names the action and the audience, is not expired, carries the digest of its own payload,
-- and its key, which has 32 bytes, has the proof's agent id as its fingerprint and signed that digest.
pub record IsAuthentic (c : Crypto) (now : ℕ) (proof : Fields) (action : String) : Type 0 where
  pub is_complete : has_all required_fields proof ≡ true
  pub for_action : get "action" proof ≡ str action
  pub for_audience : get "audience" proof ≡ str audience
  pub expires : ℕ
  pub expiry : parse_time c (get "expires_at" proof) ≡ ok (some expires)
  pub unexpired : now ≤ expires
  pub bound : get "payload_hash" proof ≡ str (digest c (obj (payload_of proof)))
  pub pub_key_hex : String
  pub key : List ℕ
  pub key_named : get "public_key_hex" proof ≡ str pub_key_hex
  pub key_decoded : c.from_hex pub_key_hex ≡ some key
  pub key_length : length key ≡ 32
  pub fingerprint : String
  pub fingerprint_of_key : key_fingerprint c pub_key_hex ≡ ok fingerprint
  pub agent_is_key : get "agent_id" proof ≡ str fingerprint
  pub signed :
      signature_ok c key (get "signature_hex" proof) (digest c (obj (payload_of proof))) ≡ true

-- What the key checks give.
record KeyFacts (c : Crypto) (proof : Fields) : Type 0 where
  pub_key_hex : String
  key : List ℕ
  key_named : get "public_key_hex" proof ≡ str pub_key_hex
  key_decoded : c.from_hex pub_key_hex ≡ some key
  key_length : length key ≡ 32
  fingerprint : String
  fingerprint_of_key : key_fingerprint c pub_key_hex ≡ ok fingerprint
  agent_is_key : get "agent_id" proof ≡ str fingerprint
  signed : signature_ok c key (get "signature_hex" proof) (digest c (obj (payload_of proof))) ≡ true

length_of : (n : ℕ) (bytes : List ℕ) → has_length n bytes ≡ true → length bytes ≡ n
length_of n bytes h = ground arith

module _ (c : Crypto) (proof : Fields) {s : String} where
  invalid-absurd : {A : Type 0} → invalid ≡ ok (true, s) → A
  invalid-absurd h = absurd (cc)

  verify_fingerprint-KeyFacts :
      (hex : String) (key : List ℕ) (r : Result String)
      → get "public_key_hex" proof ≡ str hex
      → c.from_hex hex ≡ some key
      → length key ≡ 32
      → key_fingerprint c hex ≡ r
      → verify_fingerprint c proof key r ≡ ok (true, s)
      → KeyFacts c proof
  unfolding verify_fingerprint verify_signature
  verify_fingerprint-KeyFacts hex key (raised x) named decoded long e h = invalid-absurd h
  verify_fingerprint-KeyFacts hex key (ok fp) named decoded long e h =
      let sig =
        signature_ok c key (get "signature_hex" proof) (digest c (obj (payload_of proof))) in
      let (own, h₁) =
        require-true (is_str fp (get "agent_id" proof)) "IDENTITY_INVALID"
          (verify_signature c proof key) h in
      let (signed, h₂) = require-true sig "IDENTITY_INVALID" (ok (true, "")) h₁ in
      record {
        pub_key_hex = hex;
        key = key;
        key_named = named;
        key_decoded = decoded;
        key_length = long;
        fingerprint = fp;
        fingerprint_of_key = e;
        agent_is_key = is_str→eq fp (get "agent_id" proof) own;
        signed = signed;
      }

  verify_key-KeyFacts :
      (hex : String) (o : Option (List ℕ))
      → get "public_key_hex" proof ≡ str hex
      → c.from_hex hex ≡ o
      → verify_key c proof hex o ≡ ok (true, s)
      → KeyFacts c proof
  unfolding verify_key
  verify_key-KeyFacts hex none named decoded h = invalid-absurd h
  verify_key-KeyFacts hex (some key) named decoded h =
      let (long, h₁) =
        require-true (has_length 32 key) "IDENTITY_INVALID"
          (verify_fingerprint c proof key (key_fingerprint c hex)) h in
      verify_fingerprint-KeyFacts hex key (key_fingerprint c hex) named decoded
        (length_of 32 key long) refl h₁

  verify_live-KeyFacts :
      (v : Json)
      → get "public_key_hex" proof ≡ v
      → verify_live c proof v ≡ ok (true, s)
      → KeyFacts c proof
  unfolding verify_live
  verify_live-KeyFacts (str hex) named h = verify_key-KeyFacts hex (c.from_hex hex) named refl h
  verify_live-KeyFacts null named h = absurd (cc)
  verify_live-KeyFacts (bool b) named h = absurd (cc)
  verify_live-KeyFacts (num n) named h = absurd (cc)
  verify_live-KeyFacts (arr xs) named h = absurd (cc)
  verify_live-KeyFacts (obj fs) named h = absurd (cc)

module _ (c : Crypto) (now : ℕ) (proof : Fields) (action s : String) where
  verify_expiry-IsAuthentic :
      (o : Option ℕ)
      → parse_time c (get "expires_at" proof) ≡ ok o
      → has_all required_fields proof ≡ true
      → get "action" proof ≡ str action
      → get "audience" proof ≡ str audience
      → verify_expiry c false now proof o ≡ ok (true, s)
      → IsAuthentic c now proof action
  unfolding verify_expiry verify_payload
  verify_expiry-IsAuthentic none e all act aud h = invalid-absurd c proof h
  verify_expiry-IsAuthentic (some t) e all act aud h =
      let (on_time, h₁) =
        require-true (not (ltb t now)) "PROOF_EXPIRED" (verify_payload c false proof) h in
      let (bound, h₂) =
        require-true (is_str (digest c (obj (payload_of proof))) (get "payload_hash" proof))
          "IDENTITY_INVALID" (verify_live c proof (get "public_key_hex" proof)) h₁ in
      let k = verify_live-KeyFacts c proof (get "public_key_hex" proof) refl h₂ in
      record {
        is_complete = all;
        for_action = act;
        for_audience = aud;
        expires = t;
        expiry = e;
        unexpired = ground arith;
        bound = is_str→eq (digest c (obj (payload_of proof))) (get "payload_hash" proof) bound;
        pub_key_hex = k.pub_key_hex;
        key = k.key;
        key_named = k.key_named;
        key_decoded = k.key_decoded;
        key_length = k.key_length;
        fingerprint = k.fingerprint;
        fingerprint_of_key = k.fingerprint_of_key;
        agent_is_key = k.agent_is_key;
        signed = k.signed;
      }

  -- Outside mock mode a proof is accepted for an action only if it is authentic for that action: it
  -- names the action and the audience, is unexpired, carries the digest of its own payload, and its
  -- 32-byte key has the agent id as its fingerprint and signed that digest.
  pub verify_action_request_sound :
      verify_action_request c false now proof action ≡ ok (true, s) → IsAuthentic c now proof action
  unfolding verify_action_request
  verify_action_request_sound h =
      let checks = parse_time c (get "expires_at" proof) >>= verify_expiry c false now proof in
      let for_audience =
        require (is_str audience (get "audience" proof)) "IDENTITY_INVALID" checks in
      let (all, h₁) =
        require-true (has_all required_fields proof) "IDENTITY_MISSING"
          (require (is_str action (get "action" proof)) "IDENTITY_INVALID" for_audience) h in
      let (act, h₂) =
        require-true (is_str action (get "action" proof)) "IDENTITY_INVALID" for_audience h₁ in
      let (aud, h₃) =
        require-true (is_str audience (get "audience" proof)) "IDENTITY_INVALID" checks h₂ in
      let (o, e, h₄) =
        >>=-eq-ok (parse_time c (get "expires_at" proof)) (verify_expiry c false now proof) h₃ in
      verify_expiry-IsAuthentic o e all (is_str→eq action (get "action" proof) act)
        (is_str→eq audience (get "audience" proof) aud) h₄
