-- ===== src/ReplayLedger/Consumption.antt =====
-- `consume_result_replay` of src/replay_ledger.py: a worker's result is accepted once.
use agent_delegation_network.Crypto.{Crypto}
use agent_delegation_network.Prelude.{
  Bool, Option, Result, String, false, if◌then◌else◌, leb, none, not, ok, some, true, ℕ, ◌+◌, ◌==◌,
  ◌>>◌,
}
use agent_delegation_network.ReplayLedger.Entry.{
  Entry, consumed, given, result, result_replay_ttl, verify_integrity,
}
use agent_delegation_network.ReplayLedger.Execution.{write_and}
use agent_delegation_network.ReplayLedger.Table.{Table, delete_expired, select, transaction}

-- The arguments of `consume_result_replay`.
pub record ResultReplay : Type 0 where
  pub replay_key : String
  pub owner_agent_id : String
  pub delegation_id : String
  pub payload_fingerprint : String
  pub expires_at : Option ℕ
  pub integrity_secret_hex : Option String

-- `float(expires_at or (now_ts + RESULT_REPLAY_TTL_SECONDS))`
abbrev pub effective_expires_at : Option ℕ → ℕ → ℕ
effective_expires_at none now = now + result_replay_ttl
effective_expires_at (some t) now = if leb t 0 then now + result_replay_ttl else t

abbrev pub consumed_entry : ResultReplay → ℕ → Entry
consumed_entry r now = record {
  replay_key = r.replay_key;
  kind = result;
  state = consumed;
  attempt_count = 1;
  max_attempts = 1;
  first_seen_at = now;
  updated_at = now;
  expires_at = effective_expires_at r.expires_at now;
  owner_agent_id = r.owner_agent_id;
  delegation_id = r.delegation_id;
  payload_fingerprint = r.payload_fingerprint;
  last_error = none;
  execution_token = none;
  integrity_mac = none;
}

module _ (c : Crypto) where
  unfoldable pub consume_row :
      ResultReplay → ℕ → Option Entry → Table → Result ((Bool × String) × Table)
  consume_row r now none db =
      write_and c r.integrity_secret_hex (consumed_entry r now) (true, "") db
  consume_row r now (some e) db =
      verify_integrity c e r.integrity_secret_hex
      >> ok ((false, "result replay already consumed"), db)

  unfoldable pub consume_block : ResultReplay → ℕ → Table → Result ((Bool × String) × Table)
  unfolding consume_row
  consume_block r now db =
      let live = delete_expired now db in consume_row r now (select r.replay_key live) live

  unfoldable pub consume_result_replay : ResultReplay → ℕ → Table → Result (Bool × String) × Table
  unfolding consume_block
  consume_result_replay r now db =
      if r.replay_key == ""
      then (ok (false, "result replay key missing"), db)
      else if not (given r.integrity_secret_hex)
      then (ok (false, "result replay integrity key missing"), db)
      else transaction (consume_block r now) db
