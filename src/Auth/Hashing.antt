-- ===== src/Auth/Hashing.antt =====
-- `_canonical`, `_sha256` and `key_fingerprint` of src/terminal3_agent_auth_adapter.py.
use agent_delegation_network.Crypto.{Crypto}
use agent_delegation_network.Json.{Json}
use agent_delegation_network.Prelude.{
  Result, String, none, ok, raised, some, suc, value_error, zero, ℕ, ◌++◌, ◌∷◌,
}

-- `s[:n]`
unfoldable pub take_chars : ℕ → String → String
take_chars zero s = String.[]
take_chars (suc n) String.[] = String.[]
take_chars (suc n) (String.◌∷◌ x s) = String.◌∷◌ x (take_chars n s)

module _ (c : Crypto) where
  -- `_sha256(_canonical(v))`
  unfoldable pub digest : Json → String
  digest v = c.sha256_hex (c.encode (c.dumps v))

  -- sha256('terminal3\x00' + key_bytes)[:12]
  unfoldable pub key_fingerprint : String → Result String
  key_fingerprint raw_key_hex = elim (c.from_hex raw_key_hex) [
    | none ↦ raised (value_error "non-hexadecimal number found in fromhex() arg")
    | some bytes ↦ ok (take_chars 12 (c.sha256_hex (c.encode "terminal3" ++ 0 ∷ bytes)))
  ]
