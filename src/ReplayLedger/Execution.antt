-- ===== src/ReplayLedger/Execution.antt =====
-- `_write_record`, `begin_request_execution`, `heartbeat_request_execution` and
-- `finalize_request_execution` of src/replay_ledger.py. The clock reading and the fresh token are
-- arguments.
use agent_delegation_network.Crypto.{Crypto}
use agent_delegation_network.Prelude.{
  Bool, Option, Result, String, false, if◌then◌else◌, leb, ltb, min, none, not, ok, some, true, ℕ,
  ◌+◌, ◌-◌, ◌==◌, ◌>>=◌, ◌>>◌,
}
use agent_delegation_network.ReplayLedger.Entry.{
  Entry, State, completed, compute_integrity_mac, final_failure, max_request_attempts, request,
  retryable_failure, running, running_lease, text_or, verify_integrity,
}
use agent_delegation_network.ReplayLedger.Table.{Table, delete_expired, select, transaction, upsert}

-- The arguments of `begin_request_execution`.
pub record Request : Type 0 where
  pub replay_key : String
  pub replay_expires_at : ℕ
  pub owner_agent_id : String
  pub delegation_id : String
  pub payload_fingerprint : String
  pub integrity_secret_hex : Option String

-- (granted, reason, execution token)
abbrev pub Grant : Type 0
Grant = Bool × String × Option String

abbrev pub refused : String → Grant
refused reason = (false, reason, none)

-- The refusal that the state alone decides; `fresh` says that the lease has not run out.
unfoldable pub refusal : State → Bool → Option String
refusal completed _ = some "Delegation request replay detected"
refusal final_failure _ = some "Delegation request reached final failure"
refusal running true = some "Delegation request already running"
refusal _ _ = none

abbrev pub retry_limit_exceeded : String
retry_limit_exceeded = "Delegation request retry limit exceeded"

-- The row that the first attempt writes.
abbrev pub first_attempt : Request → ℕ → String → Entry
first_attempt r now token = record {
  replay_key = r.replay_key;
  kind = request;
  state = running;
  attempt_count = 1;
  max_attempts = max_request_attempts;
  first_seen_at = now;
  updated_at = now;
  expires_at = r.replay_expires_at;
  owner_agent_id = r.owner_agent_id;
  delegation_id = r.delegation_id;
  payload_fingerprint = r.payload_fingerprint;
  last_error = none;
  execution_token = some token;
  integrity_mac = none;
}

-- What the later writes of `begin_request_execution` share.
abbrev pub renewed : Request → ℕ → Entry → Entry
renewed r now e = record e {
  replay_key = r.replay_key;
  kind = request;
  updated_at = now;
  expires_at = min e.expires_at r.replay_expires_at;
  owner_agent_id = r.owner_agent_id;
  delegation_id = r.delegation_id;
  payload_fingerprint = r.payload_fingerprint;
}

abbrev pub exhausted : Request → ℕ → Entry → Entry
exhausted r now e = record (renewed r now e) {
  state = final_failure;
  last_error = some retry_limit_exceeded;
  execution_token = none;
}

abbrev pub next_attempt : Request → ℕ → String → Entry → Entry
next_attempt r now token e = record (renewed r now e) {
  state = running;
  attempt_count = e.attempt_count + 1;
  last_error = none;
  execution_token = some token;
}

-- `existing_token and existing_token != execution_token`
abbrev pub token_differs : Option String → Option String → Bool
token_differs none token = false
token_differs (some existing) none = if existing == "" then false else true
token_differs (some existing) (some token) =
    if existing == "" then false else not (existing == token)

abbrev pub is_running : State → Bool
is_running running = true
is_running _ = false

-- The row that a heartbeat writes.
abbrev pub beaten : ℕ → Entry → Entry
beaten now e = record e { kind = request; updated_at = now }

-- The state and the error that a finalize writes: a retryable failure of the last attempt is final.
unfoldable pub final_state_of : State → Bool → State
final_state_of retryable_failure true = final_failure
final_state_of state _ = state

unfoldable pub final_error_of : State → Bool → Option String → Option String
final_error_of retryable_failure true error = some (text_or retry_limit_exceeded error)
final_error_of state _ error = error

abbrev pub finished : ℕ → State → Option String → Entry → Entry
finished now state error e =
    let spent : Bool = leb e.max_attempts e.attempt_count in
    record e {
      kind = request;
      state = final_state_of state spent;
      updated_at = now;
      last_error = final_error_of state spent error;
      execution_token = none;
    }

module _ (c : Crypto) where
  unfoldable pub write_record : Option String → Entry → Table → Result Table
  write_record secret e db = do
    code ← compute_integrity_mac c e secret
    ok (upsert (record e { integrity_mac = code }) db)

  abbrev pub write_and {ℓ} : {A : Type ℓ} → Option String → Entry → A → Table → Result (A × Table)
  write_and secret e a db = write_record secret e db >>= λ db'. ok (a, db')

  -- After the row was read and verified.
  unfoldable pub begin_existing : Request → ℕ → String → Entry → Table → Result (Grant × Table)
  begin_existing r now token e db =
      elim (refusal e.state (ltb (now - e.updated_at) running_lease)) [
        | some reason ↦ ok (refused reason, db)
        | none ↦
            if leb e.max_attempts e.attempt_count
            then write_and r.integrity_secret_hex (exhausted r now e) (refused retry_limit_exceeded)
                db
            else write_and r.integrity_secret_hex (next_attempt r now token e)
                (true, "", some token) db
      ]

  unfoldable pub begin_row : Request → ℕ → String → Option Entry → Table → Result (Grant × Table)
  unfolding begin_existing
  begin_row r now token none db =
      write_and r.integrity_secret_hex (first_attempt r now token) (true, "", some token) db
  begin_row r now token (some e) db =
      verify_integrity c e r.integrity_secret_hex >> begin_existing r now token e db

  unfoldable pub begin_block : Request → ℕ → String → Table → Result (Grant × Table)
  unfolding begin_row
  begin_block r now token db =
      let live = delete_expired now db in begin_row r now token (select r.replay_key live) live

  unfoldable pub begin_request_execution : Request → ℕ → String → Table → Result Grant × Table
  unfolding begin_block
  begin_request_execution r now token db =
      if r.replay_key == ""
      then (ok (refused "Delegation request replay key missing"), db)
      else transaction (begin_block r now token) db

  unfoldable pub heartbeat_row :
      Option String → Option String → ℕ → Option Entry → Table → Result (Bool × Table)
  heartbeat_row secret token now none db = ok (false, db)
  heartbeat_row secret token now (some e) db =
      verify_integrity c e secret
      >> (if not (is_running e.state)
          then ok (false, db)
          else if token_differs e.execution_token token
          then ok (false, db)
          else write_and secret (beaten now e) true db)

  unfoldable pub heartbeat_request_execution :
      String → Option String → Option String → ℕ → Table → Result Bool × Table
  unfolding heartbeat_row
  heartbeat_request_execution key secret token now db =
      if key == ""
      then (ok false, db)
      else transaction (λ t. heartbeat_row secret token now (select key t) t) db

  unfoldable pub finalize_row :
      State
      → Option String
      → Option String
      → Option String
      → ℕ
      → Option Entry
      → Table
      → Result (Bool × Table)
  finalize_row state secret error token now none db = ok (false, db)
  finalize_row state secret error token now (some e) db =
      verify_integrity c e secret
      >> (if token_differs e.execution_token token
          then ok (false, db)
          else write_and secret (finished now state error e) true db)

  unfoldable pub finalize_request_execution :
      String
      → State
      → Option String
      → Option String
      → Option String
      → ℕ
      → Table
      → Result Bool × Table
  unfolding finalize_row
  finalize_request_execution key state secret error token now db =
      if key == ""
      then (ok false, db)
      else transaction (λ t. finalize_row state secret error token now (select key t) t) db
