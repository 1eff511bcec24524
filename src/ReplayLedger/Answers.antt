-- ===== src/ReplayLedger/Answers.antt =====
-- What each call of the ledger answers (src/replay_ledger.py), as a function of the row of its key.
use agent_delegation_network.Crypto.{Crypto}
use agent_delegation_network.Prelude.{
  Bool-cases, Exception, Option, Option-cases, String, arith, if◌then◌else◌, inl, inr, leb, ltb,
  none, ok, raised, some, str_ne, true, ℕ, ◌-◌, ◌<◌, ◌∙◌, ◌≡◌, ◌≢◌,
}
use agent_delegation_network.ReplayLedger.Consumption.{
  ResultReplay, consume_block, consume_result_replay, consume_row,
}
use agent_delegation_network.ReplayLedger.Entry.{
  Entry, State, given, running_lease, verify_integrity,
}
use agent_delegation_network.ReplayLedger.Execution.{
  Grant, Request, begin_block, begin_existing, begin_request_execution, begin_row, exhausted,
  finalize_request_execution, finalize_row, first_attempt, heartbeat_request_execution,
  heartbeat_row, next_attempt, refusal, refused, retry_limit_exceeded,
}
use agent_delegation_network.ReplayLedger.Integrity.{IsSealed, IsUsable, write-IsSealed}
use agent_delegation_network.ReplayLedger.Table.{
  IsKeyed, Table, alive, delete_expired, select, select-delete_expired, upsert,
}

-- The answer of a begin, from the row that is alive.
unfoldable pub begin_answer : Request → ℕ → String → Option Entry → Grant
begin_answer r now token none = (true, "", some token)
begin_answer r now token (some e) =
    elim (refusal e.state (ltb (now - e.updated_at) running_lease)) [
      | some reason ↦ refused reason
      | none ↦
          if leb e.max_attempts e.attempt_count
          then refused retry_limit_exceeded
          else (true, "", some token)
    ]

abbrev pub SealedRow : Crypto → Option String → Option Entry → Type 0
SealedRow c secret none = Unit
SealedRow c secret (some e) = IsSealed c secret e

module _ (c : Crypto) (r : Request) (now : ℕ) (token : String)
    (u : IsUsable c r.integrity_secret_hex) where
  begin_existing-answer :
      (e : Entry) (live : Table)
      → (t : Table) × (begin_existing c r now token e live
          ≡ ok (begin_answer r now token (some e), t))
  unfolding begin_existing begin_answer
  begin_existing-answer e live =
      elim (Option-cases (refusal e.state (ltb (now - e.updated_at) running_lease))) [
        | inr (reason, p) ↦ (live, rw (p, begin_existing, begin_answer))
        | inl p ↦ elim (Bool-cases (leb e.max_attempts e.attempt_count)) [
          | inl q ↦
              let (code, w, z) =
                write-IsSealed c r.integrity_secret_hex (exhausted r now e) live u in
              (
                upsert (record (exhausted r now e) { integrity_mac = code }) live,
                rw (p, begin_existing, begin_answer) (rw q (rw w)),
              )
          | inr q ↦
              let (code, w, z) =
                write-IsSealed c r.integrity_secret_hex (next_attempt r now token e) live u in
              (
                upsert (record (next_attempt r now token e) { integrity_mac = code }) live,
                rw (p, begin_existing, begin_answer) (rw q (rw w)),
              )
        ]
      ]

  begin_row-answer :
      (o : Option Entry) (live : Table)
      → SealedRow c r.integrity_secret_hex o
      → (t : Table) × (begin_row c r now token o live ≡ ok (begin_answer r now token o, t))
  unfolding begin_row begin_answer
  begin_row-answer none live h =
      let (code, w, z) =
        write-IsSealed c r.integrity_secret_hex (first_attempt r now token) live u in
      (upsert (record (first_attempt r now token) { integrity_mac = code }) live, rw w)
  begin_row-answer (some e) live h = rw h (begin_existing-answer e live)

  -- With a usable secret, if the alive row of the key verifies, a begin of a non-empty key raises
  -- nothing and answers exactly by that row.
  pub begin_request_execution-answer :
      (db : Table)
      → r.replay_key ≢ ""
      → IsKeyed db
      → SealedRow c r.integrity_secret_hex (alive now (select r.replay_key db))
      → (begin_request_execution c r now token db).0
        ≡ ok (begin_answer r now token (alive now (select r.replay_key db)))
  unfolding begin_request_execution begin_block
  begin_request_execution-answer db ne keyed h =
      let live = delete_expired now db in
      let at : select r.replay_key live ≡ alive now (select r.replay_key db) =
        select-delete_expired r.replay_key now db keyed in
      let (t, e) = begin_row-answer (alive now (select r.replay_key db)) live h in
      rw (str_ne r.replay_key "" ne) (rw at (rw e))

module _ (c : Crypto) (key : String) (db : Table) (e : Entry) (x : Exception) where
  -- With a secret in force, a row of a non-empty key that has not expired and does not verify stops
  -- each of the four calls on its key under that secret: the call raises, and the table is as before
  -- (also the deletion of expired rows is undone). Nothing is said of an expired row.
  pub tampered_row_stops :
      (r : Request) (s : ResultReplay) (state : State) (secret error token : Option String)
      (fresh : String) (now : ℕ)
      → key ≢ ""
      → r.replay_key ≡ key
      → s.replay_key ≡ key
      → r.integrity_secret_hex ≡ secret
      → s.integrity_secret_hex ≡ secret
      → IsKeyed db
      → select key db ≡ some e
      → now < e.expires_at
      → given secret ≡ true
      → verify_integrity c e secret ≡ raised x
      → (begin_request_execution c r now fresh db ≡ (raised x, db))
        × (heartbeat_request_execution c key secret token now db ≡ (raised x, db))
        × (finalize_request_execution c key state secret error token now db ≡ (raised x, db))
        × (consume_result_replay c s now db ≡ (raised x, db))
  unfolding begin_request_execution begin_block begin_row heartbeat_request_execution heartbeat_row
      finalize_request_execution finalize_row consume_result_replay consume_block consume_row
  tampered_row_stops r s state secret error token fresh now ne rk sk rs ss keyed found young g bad =
      let at : select key (delete_expired now db) ≡ some e =
        select-delete_expired key now db keyed ∙ (rw found (ground arith)) in
      (
        rw (rk, rs, str_ne key "" ne) (rw at (rw bad)),
        rw (str_ne key "" ne) (rw found (rw bad)),
        rw (str_ne key "" ne) (rw found (rw bad)),
        rw (sk, ss, str_ne key "" ne) (rw g (rw at (rw bad))),
      )
