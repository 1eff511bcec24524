-- ===== src/Worker/Sessions.antt =====
-- `handle_rpc` of adn/worker_executor.py and its table of sessions.
use agent_delegation_network.Auth.Hashing.{take_chars}
use agent_delegation_network.Crypto.{Crypto}
use agent_delegation_network.Json.{Fields, Json, end, field, get, get_or, is_str, str}
use agent_delegation_network.Json.Keys.{
  Key, KeyDict, hash_key, key_insert, key_lookup, same_key, text,
}
use agent_delegation_network.Prelude.{
  Bool, Option, Result, String, [], if◌then◌else◌, none, ok, raised, some, type_error, ◌>>=◌, ◌∷◌,
}
use agent_delegation_network.RuntimeSecurity.Mode.{same_codes}
use agent_delegation_network.Text.Strings.{concat_text}

pub record Session : Type 0 where
  pub private_key : String
  pub did : String
  pub agent_id : String
  pub public_key_hex : String

-- What key generation and `secrets.token_hex` return.
pub record Fresh : Type 0 where
  pub private_key : String
  pub session_id : String
  pub agent_suffix : String

-- `_sessions`
abbrev pub Sessions : Type 0
Sessions = KeyDict Session

-- `d.pop(k, None)`
unfoldable pub key_erase : Key → Sessions → Sessions
key_erase k [] = []
key_erase k ((j, v) ∷ d) = let rest = key_erase k d in if same_key j k then rest else (j, v) ∷ rest

abbrev pub error_reply : String → Fields
error_reply e = field "error" (str e) end

abbrev pub method_is : String → Fields → Bool
method_is name data' = is_str name (get "method" data')

abbrev pub session_id_of : Fields → Json
session_id_of data' = get_or (str "") "session_id" data'

module _ (c : Crypto) (capability : String) where
  -- `_auth`: `compare_digest` raises on a token that is no text.
  unfoldable pub authorized : Json → Result Bool
  authorized (str token) = ok (same_codes (c.encode token) (c.encode capability))
  authorized _ = raised (type_error "unsupported operand types")

  unfoldable pub new_session : Fresh → Session
  unfolding concat_text take_chars
  new_session f = record {
    private_key = f.private_key;
    did = concat_text "did:key:z" (take_chars 32 (c.public_key f.private_key));
    agent_id = concat_text "worker-" f.agent_suffix;
    public_key_hex = c.public_key f.private_key;
  }

  abbrev pub session_fields : Session → Fields → Fields
  session_fields x rest =
      field "agentId" (str x.agent_id)
        (field "did" (str x.did) (field "publicKeyHex" (str x.public_key_hex) rest))

  unfoldable pub create_session : Fresh → Sessions → Result Fields × Sessions
  unfolding new_session
  create_session f s = (
    ok (field "session_id" (str f.session_id) (session_fields (new_session f) end)),
    key_insert (text f.session_id) (new_session f) s,
  )

  -- A text is signed as it is, any other payload in canonical JSON.
  abbrev pub payload_text : Json → String
  payload_text (str s) = s
  payload_text v = c.dumps v

  abbrev pub reply_of : (Session → Fields) → Option Session → Result Fields
  reply_of reply none = ok (error_reply "unknown_session")
  reply_of reply (some x) = ok (reply x)

  abbrev pub with_session : Fields → Sessions → (Session → Fields) → Result Fields
  with_session data' s reply =
      hash_key (session_id_of data') >>= λ k. reply_of reply (key_lookup k s)

  unfoldable pub sign_result : Fields → Sessions → Result Fields
  sign_result data' s = with_session data' s (λ x.
      field "signature"
        (str (c.sign x.private_key (payload_text (get_or (str "") "payload" data'))))
        (field "session_id" (session_id_of data') end))

  unfoldable pub get_public_key : Fields → Sessions → Result Fields
  get_public_key data' s = with_session data' s (λ x.
      field "publicKeyHex" (str x.public_key_hex)
        (field "did" (str x.did) (field "agentId" (str x.agent_id) end)))

  abbrev pub close_key : Json → Sessions → Result Key → Result Fields × Sessions
  close_key sid s (raised e) = (raised e, s)
  close_key sid s (ok k) = (ok (field "closed" sid end), key_erase k s)

  unfoldable pub close_session : Fields → Sessions → Result Fields × Sessions
  close_session data' s = close_key (session_id_of data') s (hash_key (session_id_of data'))

  unfoldable pub call_method : Fresh → Fields → Sessions → Result Fields × Sessions
  unfolding create_session close_session
  call_method f data' s =
      if method_is "create_session" data'
      then create_session f s
      else if method_is "sign_result" data'
      then (sign_result data' s, s)
      else if method_is "get_public_key" data'
      then (get_public_key data' s, s)
      else if method_is "close_session" data'
      then close_session data' s
      else (ok (error_reply "unknown_method"), s)

  abbrev pub after_auth : Fresh → Fields → Sessions → Result Bool → Result Fields × Sessions
  after_auth f data' s (raised e) = (raised e, s)
  after_auth f data' s (ok allowed) =
      if allowed then call_method f data' s else (ok (error_reply "unauthorized"), s)

  unfoldable pub handle_rpc : Fresh → Fields → Sessions → Result Fields × Sessions
  unfolding authorized
  handle_rpc f data' s = after_auth f data' s (authorized (get_or (str "") "token" data'))
