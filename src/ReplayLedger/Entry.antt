-- ===== src/ReplayLedger/Entry.antt =====
-- A row of `replay_entries` and its integrity code (src/replay_ledger.py).
-- Times are whole microseconds.
use agent_delegation_network.Crypto.{Crypto}
use agent_delegation_network.Json.{Json, end, field, num, obj, opt_str, str}
use agent_delegation_network.Prelude.{
  Bool, Option, Result, String, false, if◌then◌else◌, none, not, ok, raise_if, raised,
  runtime_error, some, true, value_error, ℕ, ◌*◌, ◌==◌, ◌>>=◌,
}

pub data Kind : Type 0 where
  request result : Kind

pub data State : Type 0 where
  running completed retryable_failure final_failure consumed : State

abbrev pub kind_text : Kind → String
kind_text request = "request"
kind_text result = "result"

abbrev pub state_text : State → String
state_text running = "RUNNING"
state_text completed = "COMPLETED"
state_text retryable_failure = "RETRYABLE_FAILURE"
state_text final_failure = "FINAL_FAILURE"
state_text consumed = "CONSUMED"

abbrev pub seconds : ℕ → ℕ
seconds n = n * 1_000_000

-- RUNNING_LEASE_SECONDS, RESULT_REPLAY_TTL_SECONDS, MAX_REQUEST_ATTEMPTS
abbrev pub running_lease : ℕ
running_lease = seconds 300

abbrev pub result_replay_ttl : ℕ
result_replay_ttl = seconds 900

abbrev pub max_request_attempts : ℕ
max_request_attempts = 2

pub record Entry : Type 0 where
  pub replay_key : String
  pub kind : Kind
  pub state : State
  pub attempt_count : ℕ
  pub max_attempts : ℕ
  pub first_seen_at : ℕ
  pub updated_at : ℕ
  pub expires_at : ℕ
  pub owner_agent_id : String
  pub delegation_id : String
  pub payload_fingerprint : String
  pub last_error : Option String
  pub execution_token : Option String
  pub integrity_mac : Option String

-- The value that `_stable_record_payload` prints: every column but the code itself.
unfoldable pub stable_record_payload : Entry → Json
stable_record_payload e = obj (
    field "replay_key" (str e.replay_key) (
      field "kind" (str (kind_text e.kind)) (
        field "state" (str (state_text e.state)) (
          field "attempt_count" (num e.attempt_count) (
            field "max_attempts" (num e.max_attempts) (
              field "first_seen_at" (num e.first_seen_at) (
                field "updated_at" (num e.updated_at) (
                  field "expires_at" (num e.expires_at) (
                    field "owner_agent_id" (str e.owner_agent_id) (
                      field "delegation_id" (str e.delegation_id) (
                        field "payload_fingerprint" (str e.payload_fingerprint) (
                          field "last_error" (opt_str e.last_error)
                            (field "execution_token" (opt_str e.execution_token) end)))))))))))))

-- A text that may be missing, as a condition and with its default.
abbrev pub given : Option String → Bool
given none = false
given (some s) = if s == "" then false else true

abbrev pub text_or : String → Option String → String
text_or d none = d
text_or d (some s) = if s == "" then d else s

-- `not actual or not compare_digest(actual, expected or "")`
abbrev pub code_differs : Option String → Option String → Bool
code_differs none expected = true
code_differs (some actual) expected =
    if actual == "" then true else not (actual == text_or "" expected)

module _ (c : Crypto) where
  -- `bytes.fromhex` raises on a secret that is not hexadecimal
  keyed_code : Option String → Result (Option String)
  keyed_code none = raised (value_error "non-hexadecimal number found in fromhex() arg")
  keyed_code (some code) = ok (some code)

  unfoldable pub compute_integrity_mac : Entry → Option String → Result (Option String)
  unfolding keyed_code
  compute_integrity_mac e none = ok none
  compute_integrity_mac e (some secret) =
      if secret == ""
      then ok none
      else keyed_code (c.hmac_sha256 secret (c.dumps (stable_record_payload e)))

  unfoldable pub verify_integrity : Entry → Option String → Result (Unit {0})
  verify_integrity e secret =
      if given secret
      then (compute_integrity_mac e secret >>= λ expected.
          raise_if (code_differs e.integrity_mac expected)
            (runtime_error "Replay ledger integrity check failed"))
      else ok tt
