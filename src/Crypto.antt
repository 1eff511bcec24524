-- ===== src/Crypto.antt =====
-- What the program calls and does not implement: the printer of `json`, `hashlib`, `hmac`, the ISO
-- times of `datetime` and the Ed25519 keys of `cryptography`. They are parameters of the modules that
-- use them.
use agent_delegation_network.Json.{Json}
use agent_delegation_network.Prelude.{Bool, List, Option, String, ℕ}

-- A parsed ISO time: with an offset, or without one and then as the instant that it is in UTC.
pub data IsoTime : Type 0 where
  aware naive : ℕ → IsoTime

pub record Crypto : Type 0 where
  -- `json.dumps(v, sort_keys=True, separators=(",", ":"))`
  pub dumps : Json → String
  -- `hashlib.sha256(b).hexdigest()`
  pub sha256_hex : List ℕ → String
  -- `s.encode()`
  pub encode : String → List ℕ
  -- `bytes.fromhex(s)`; `none` is a ValueError
  pub from_hex : String → Option (List ℕ)
  -- `hmac.new(bytes.fromhex(secret), s.encode(), hashlib.sha256).hexdigest()`, and `none` where
  -- `bytes.fromhex` refuses the secret
  pub hmac_sha256 : String → String → Option String
  -- `t.isoformat()` and `datetime.fromisoformat(s)`; `none` is a ValueError
  pub iso_format : ℕ → String
  pub from_iso_format : String → Option IsoTime
  -- the hexadecimal public key of a private key, and the hexadecimal signature of a message
  pub public_key : String → String
  pub sign : String → String → String
  -- `Ed25519PublicKey.from_public_bytes(key).verify(signature, message)` raises nothing
  pub verify : List ℕ → List ℕ → String → Bool
