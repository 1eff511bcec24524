-- ===== src/Worker/Lifetime.antt =====
-- How long a session lives (adn/worker_executor.py).
use agent_delegation_network.Crypto.{Crypto}
use agent_delegation_network.Json.{Fields, end, field, get_or, str}
use agent_delegation_network.Json.Keys.{
  Key, hash_key, key_lookup, key_lookup-key_insert, same_key, same_key_iff, text,
}
use agent_delegation_network.Prelude.{
  All, Bool, Bool-cases, List, Result, String, [], ap, arith, false, inl, inr, ok, raised, refl,
  some, true, ◌>>=◌, ◌∙◌, ◌∷◌, ◌≡◌,
}
use agent_delegation_network.Worker.Sessions.{
  Fresh, Session, Sessions, after_auth, authorized, call_method, close_key, close_session,
  create_session, handle_rpc, key_erase, method_is, new_session, payload_text, reply_of,
  session_id_of, sign_result, with_session,
}

-- A sequence of calls, each with its fresh values.
unfoldable pub serve_all : Crypto → String → List (Fresh × Fields) → Sessions → Sessions
serve_all c capability [] s = s
serve_all c capability ((f, data') ∷ calls) s =
    serve_all c capability calls (handle_rpc c capability f data' s).1

-- The call does not close the session `k`, and makes no other session of that id.
abbrev pub Spares : Key → Fresh × Fields → Type 0
Spares k (f, data') =
    (same_key (text f.session_id) k ≡ false)
    × ((j : Key)
        → method_is "close_session" data' ≡ true
        → hash_key (session_id_of data') ≡ ok j
        → same_key j k ≡ false)

key_lookup-key_erase :
    (k j : Key) (s : Sessions)
    → same_key k j ≡ false
    → key_lookup j (key_erase k s) ≡ key_lookup j s
unfolding key_lookup key_erase
key_lookup-key_erase k j [] h = refl
key_lookup-key_erase k j ((i, v) ∷ s) h =
    ground
      (arith, same_key_iff k j, same_key_iff i k, same_key_iff i j, key_lookup-key_erase k j s h)

module _ (c : Crypto) (capability : String) (k : Key) (f : Fresh) (data' : Fields) (s : Sessions)
    (w : Spares k (f, data')) where
  closed_keeps :
      (m : Result Key)
      → hash_key (session_id_of data') ≡ m
      → method_is "close_session" data' ≡ true
      → key_lookup k (close_key c capability (session_id_of data') s m).1 ≡ key_lookup k s
  closed_keeps (raised e) p q = refl
  closed_keeps (ok j) p q = key_lookup-key_erase j k s (w.1 j q p)

  called_keeps : key_lookup k (call_method c capability f data' s).1 ≡ key_lookup k s
  unfolding call_method create_session close_session
  called_keeps = elim (Bool-cases (method_is "create_session" data')) [
    | inl a ↦
        rw a (
          key_lookup-key_insert (text f.session_id) k (new_session c capability f) s
          ∙ rw (w.0) refl)
    | inr a ↦ elim (Bool-cases (method_is "sign_result" data')) [
      | inl b ↦ rw (a, b)
      | inr b ↦ elim (Bool-cases (method_is "get_public_key" data')) [
        | inl d ↦ rw (a, b, d)
        | inr d ↦ elim (Bool-cases (method_is "close_session" data')) [
          | inl e ↦ rw (a, b, d, e) (closed_keeps (hash_key (session_id_of data')) refl e)
          | inr e ↦ rw (a, b, d, e)
        ]
      ]
    ]
  ]

  authorized_keeps :
      (m : Result Bool) → key_lookup k (after_auth c capability f data' s m).1 ≡ key_lookup k s
  authorized_keeps (raised e) = refl
  authorized_keeps (ok true) = called_keeps
  authorized_keeps (ok false) = refl

  pub handle_rpc_keeps : key_lookup k (handle_rpc c capability f data' s).1 ≡ key_lookup k s
  unfolding handle_rpc
  handle_rpc_keeps = authorized_keeps (authorized c capability (get_or (str "") "token" data'))

serve_all_keeps :
    (c : Crypto) (capability : String) (k : Key) (calls : List (Fresh × Fields)) (s : Sessions)
    → All (Spares k) calls
    → key_lookup k (serve_all c capability calls s) ≡ key_lookup k s
unfolding serve_all
serve_all_keeps c capability k [] s w = refl
serve_all_keeps c capability k ((f, data') ∷ calls) s w =
    serve_all_keeps c capability k calls (handle_rpc c capability f data' s).1 w.1
    ∙ handle_rpc_keeps c capability k f data' s w.0

with_session_found :
    (c : Crypto) (capability : String) (data' : Fields) (s : Sessions) (reply : Session → Fields)
    (k : Key) (x : Session)
    → hash_key (session_id_of data') ≡ ok k
    → key_lookup k s ≡ some x
    → with_session c capability data' s reply ≡ ok (reply x)
with_session_found c capability data' s reply k x h found =
    ap (λ m. m >>= λ j. reply_of c capability reply (key_lookup j s)) h
    ∙ ap (reply_of c capability reply) found

-- A session signs with the key it was created with for as long as nobody closes it: after an
-- authorized create_session and any calls that neither close its id nor draw it again, an authorized
-- sign_result for the id returns the signature of its payload under that key.
pub session_signs :
    (c : Crypto) (capability : String) (f : Fresh) (create : Fields) (g : Fresh) (sign : Fields)
    (calls : List (Fresh × Fields)) (s : Sessions)
    → authorized c capability (get_or (str "") "token" create) ≡ ok true
    → method_is "create_session" create ≡ true
    → All (Spares (text f.session_id)) calls
    → authorized c capability (get_or (str "") "token" sign) ≡ ok true
    → method_is "create_session" sign ≡ false
    → method_is "sign_result" sign ≡ true
    → session_id_of sign ≡ str f.session_id
    → (handle_rpc c capability g sign
        (serve_all c capability calls (handle_rpc c capability f create s).1)).0
      ≡ ok (
          field "signature"
            (str
              (c.sign f.private_key (payload_text c capability (get_or (str "") "payload" sign))))
            (field "session_id" (str f.session_id) end))
unfolding handle_rpc call_method create_session sign_result hash_key new_session
session_signs c capability f create g sign calls s a m w b n p i =
    let s' = (handle_rpc c capability f create s).1 in
    let made : key_lookup (text f.session_id) s' ≡ some (new_session c capability f) =
      rw (a, m)
        (key_lookup-key_insert (text f.session_id) (text f.session_id) (new_session c capability f)
            s
          ∙ rw ((same_key_iff (text f.session_id) (text f.session_id)).1 refl)) in
    let found = serve_all_keeps c capability (text f.session_id) calls s' w ∙ made in
    let read : hash_key (session_id_of sign) ≡ ok (text f.session_id) = rw i refl in
    let reply = λ (x : Session).
      field "signature"
        (str (c.sign x.private_key (payload_text c capability (get_or (str "") "payload" sign))))
        (field "session_id" (session_id_of sign) end) in
    let signed =
      with_session_found c capability sign (serve_all c capability calls s') reply
        (text f.session_id) (new_session c capability f) read found in
    rw b (rw n (rw p (signed ∙ rw i refl)))
