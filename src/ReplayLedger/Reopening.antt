-- ===== src/ReplayLedger/Reopening.antt =====
-- `finalize_request_execution` of src/replay_ledger.py does not ask whether the entry is running,
-- and a closed entry has no token left to compare with.
use agent_delegation_network.Crypto.{Crypto}
use agent_delegation_network.Prelude.{
  Option, String, arith, eq_iff, none, ok, some, str_ne, subst, sym, true, ℕ, ◌<◌, ◌∙◌, ◌≡◌, ◌≢◌,
}
use agent_delegation_network.ReplayLedger.Answers.{
  SealedRow, begin_answer, begin_request_execution-answer,
}
use agent_delegation_network.ReplayLedger.Entry.{Entry, State, completed, retryable_failure}
use agent_delegation_network.ReplayLedger.Execution.{
  Request, begin_request_execution, final_state_of, finalize_request_execution, finalize_row,
  finished, refusal,
}
use agent_delegation_network.ReplayLedger.Integrity.{IsSealed, IsUsable, write-IsSealed}
use agent_delegation_network.ReplayLedger.Moves.{apply, finalize}
use agent_delegation_network.ReplayLedger.Table.{
  IsKeyed, Table, alive, select, select-upsert, select_key, upsert,
}
use agent_delegation_network.ReplayLedger.Traces.{apply-IsKeyed}

module _ (c : Crypto) (key : String) (secret : Option String) (u : IsUsable c secret) where
  -- Under a usable secret, a finalize with any token of a row that verifies and has no token left
  -- returns `True`, and the row then has the state and the error of that finalize.
  pub finalize_overwrites :
      (db : Table) (e : Entry) (state : State) (error token : Option String) (now : ℕ)
      → key ≢ ""
      → select key db ≡ some e
      → IsSealed c secret e
      → e.execution_token ≡ none
      → ((finalize_request_execution c key state secret error token now db).0 ≡ ok true)
        × ((code : Option String) × (select key
                (finalize_request_execution c key state secret error token now db).1
              ≡ some (record (finished now state error e) { integrity_mac = code }))
            × IsSealed c secret (record (finished now state error e) { integrity_mac = code }))
  unfolding finalize_request_execution finalize_row
  finalize_overwrites db e state error token now ne found seal idle =
      let (code, w, z) = write-IsSealed c secret (finished now state error e) db u in
      let own : select key
            (upsert (record (finished now state error e) { integrity_mac = code }) db)
          ≡ some (record (finished now state error e) { integrity_mac = code }) =
        ground (
          arith,
          select_key key db e found,
          select-upsert key (record (finished now state error e) { integrity_mac = code }) db,
          eq_iff e.replay_key key,
        ) in
      (
        rw (str_ne key "" ne) (rw found (rw seal (rw idle (rw w)))),
        (code, rw (str_ne key "" ne) (rw found (rw seal (rw idle (rw w own)))), z),
      )

  -- A completed request that has an attempt left is executed again: after a finalize with any token
  -- reports a retryable failure, the next begin of the key before the entry expires is granted.
  pub completed_reopens :
      (r : Request) (db : Table) (e : Entry) (error token : Option String) (now later : ℕ)
      (fresh : String)
      → key ≢ ""
      → IsKeyed db
      → select key db ≡ some e
      → IsSealed c secret e
      → e.state ≡ completed
      → e.execution_token ≡ none
      → e.attempt_count < e.max_attempts
      → r.replay_key ≡ key
      → r.integrity_secret_hex ≡ secret
      → later < e.expires_at
      → (begin_request_execution c r later fresh
          (finalize_request_execution c key retryable_failure secret error token now db).1).0
        ≡ ok (true, "", some fresh)
  unfolding apply begin_answer refusal final_state_of
  completed_reopens r db e error token now later fresh ne keyed found seal done idle left rk rs t =
      let db' = (finalize_request_execution c key retryable_failure secret error token now db).1 in
      let keyed' : IsKeyed db' =
        apply-IsKeyed c (finalize key retryable_failure secret error token now) db keyed in
      let (code, row, z) =
        (finalize_overwrites db e retryable_failure error token now ne found seal idle).1 in
      let f : Entry = record (finished now retryable_failure error e) { integrity_mac = code } in
      let young : alive later (select key db') ≡ some f = rw row (ground arith) in
      let young' : alive later (select r.replay_key db') ≡ some f = rw rk young in
      let answer =
        begin_request_execution-answer c r later fresh (rw rs u) db' (rw rk ne) keyed'
          (subst (SealedRow c r.integrity_secret_hex) (sym young') (rw rs z)) in
      answer ∙ (rw young' (ground arith))
