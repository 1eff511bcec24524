-- ===== src/ReplayLedger/Steps.antt =====
-- Every call of the ledger moves the row of every key by one step of the state machine.
use agent_delegation_network.Crypto.{Crypto}
use agent_delegation_network.Prelude.{
  Bool, Bool-cases, Option, Result, String, ap, arith, eq_iff, false, inl, inr, none, refl, some,
  true, ℕ, ◌&&◌, ◌==◌, ◌≡◌,
}
use agent_delegation_network.ReplayLedger.Consumption.{
  ResultReplay, consume_result_replay, consumed_entry,
}
use agent_delegation_network.ReplayLedger.Entry.{Entry, State, given}
use agent_delegation_network.ReplayLedger.Execution.{
  Grant, Request, beaten, begin_request_execution, exhausted, finalize_request_execution, finished,
  first_attempt, heartbeat_request_execution, next_attempt,
}
use agent_delegation_network.ReplayLedger.Moves.{
  Move, Op, accepted, apply, beat, begin, closed, consume, finalize, gave_up, grants, heartbeat,
  is_granted, kept, lapsed, retried, started,
}
use agent_delegation_network.ReplayLedger.Table.{
  IsKeyed, Table, alive, delete_expired, select, select-delete_expired, select-upsert, select_key,
  settle, upsert,
}
use agent_delegation_network.ReplayLedger.Views.{
  BeginView, ConsumeView, UpdateView, accepts, begin_block-view, consume_block-view,
  finalize_row-view, heartbeat_row-view, ignores, may_beat, may_close, retries, starts, updates,
}

module _ (k : String) (db : Table) (keyed : IsKeyed db) where
  -- The row of another key is left as it was, or lapses.
  other_row :
      (now : ℕ) (e : Entry)
      → (e.replay_key == k) ≡ false
      → select k (upsert e (delete_expired now db)) ≡ alive now (select k db)
  other_row now e h =
      ground
        (arith, select-upsert k e (delete_expired now db), select-delete_expired k now db keyed)

  own_row : (e : Entry) (t : Table) → (e.replay_key == k) ≡ true → select k (upsert e t) ≡ some e
  own_row e t h = ground (arith, select-upsert k e t)

  -- The row that the block looked up, in terms of the table before the call.
  looked_up :
      (now : ℕ) (key : String) (o : Option Entry)
      → (key == k) ≡ true
      → select key (delete_expired now db) ≡ o
      → alive now (select k db) ≡ o
  looked_up now key o h e = ground (arith, eq_iff key k, select-delete_expired k now db keyed)

  begin_block-Move :
      (r : Request) (now : ℕ) (token : String) {x : Result (Grant × Table)}
      → BeginView r now token (delete_expired now db) x
      → Move k
          (begin r now token)
          (select k db)
          (select k (settle db x).1)
          ((r.replay_key == k) && is_granted (settle db x).0)
  begin_block-Move r now token (BeginView.fails x) = kept (ground arith) refl
  begin_block-Move r now token (BeginView.refuses reason) =
      lapsed (ground arith) (select-delete_expired k now db keyed)
  begin_block-Move r now token (starts code absent) = elim (Bool-cases (r.replay_key == k)) [
    | inr ne ↦
        lapsed (rw ne)
          (other_row now (record (first_attempt r now token) { integrity_mac = code }) ne)
    | inl eq ↦
        started r token code refl ((eq_iff r.replay_key k).0 eq) (rw eq)
          (looked_up now r.replay_key none eq absent)
          (own_row (record (first_attempt r now token) { integrity_mac = code }) _ eq)
  ]
  begin_block-Move r now token (BeginView.gives_up e code found due spent) =
      elim (Bool-cases (r.replay_key == k)) [
        | inr ne ↦
            lapsed (rw ne) (other_row now (record (exhausted r now e) { integrity_mac = code }) ne)
        | inl eq ↦
            gave_up r token e code refl ((eq_iff r.replay_key k).0 eq) (rw eq)
              (looked_up now r.replay_key (some e) eq found) due spent
              (own_row (record (exhausted r now e) { integrity_mac = code }) _ eq)
      ]
  begin_block-Move r now token (retries e code found due left) =
      elim (Bool-cases (r.replay_key == k)) [
        | inr ne ↦
            lapsed (rw ne)
              (other_row now (record (next_attempt r now token e) { integrity_mac = code }) ne)
        | inl eq ↦
            retried r token e code refl ((eq_iff r.replay_key k).0 eq) (rw eq)
              (looked_up now r.replay_key (some e) eq found) due left
              (own_row (record (next_attempt r now token e) { integrity_mac = code }) _ eq)
      ]

  begin-Move :
      (c : Crypto) (r : Request) (now : ℕ) (token : String)
      → Move k
          (begin r now token)
          (select k db)
          (select k (begin_request_execution c r now token db).1)
          ((r.replay_key == k) && is_granted (begin_request_execution c r now token db).0)
  unfolding begin_request_execution
  begin-Move c r now token = elim (Bool-cases (r.replay_key == "")) [
    | inl e ↦ rw e (kept (ground arith) refl)
    | inr e ↦ rw e (begin_block-Move r now token (begin_block-view c r now token db))
  ]

  consume_block-Move :
      (r : ResultReplay) (now : ℕ) {x : Result ((Bool × String) × Table)}
      → ConsumeView r now (delete_expired now db) x
      → Move k (consume r now) (select k db) (select k (settle db x).1) false
  consume_block-Move r now (ConsumeView.fails x) = kept refl refl
  consume_block-Move r now (ConsumeView.refuses reason) =
      lapsed refl (select-delete_expired k now db keyed)
  consume_block-Move r now (accepts code absent) = elim (Bool-cases (r.replay_key == k)) [
    | inr ne ↦
        lapsed refl (other_row now (record (consumed_entry r now) { integrity_mac = code }) ne)
    | inl eq ↦
        accepted r code refl ((eq_iff r.replay_key k).0 eq) refl
          (looked_up now r.replay_key none eq absent)
          (own_row (record (consumed_entry r now) { integrity_mac = code }) _ eq)
  ]

  consume-Move :
      (c : Crypto) (r : ResultReplay) (now : ℕ)
      → Move k (consume r now) (select k db) (select k (consume_result_replay c r now db).1) false
  unfolding consume_result_replay
  consume-Move c r now = elim (Bool-cases (r.replay_key == "")) [
    | inl e ↦ rw e (kept refl refl)
    | inr e ↦ rw e (elim (Bool-cases (given r.integrity_secret_hex)) [
      | inl g ↦ rw g (consume_block-Move r now (consume_block-view c r now db))
      | inr g ↦ rw g (kept refl refl)
    ])
  ]

update_other :
    (k key : String) (db : Table) (e f : Entry)
    → select key db ≡ some e
    → f.replay_key ≡ e.replay_key
    → (key == k) ≡ false
    → select k (upsert f db) ≡ select k db
update_other k key db e f found same ne =
    ground
      (arith, select_key key db e found, select-upsert k f db, eq_iff f.replay_key k, eq_iff key k)

update_own :
    (k key : String) (db : Table) (e f : Entry)
    → select key db ≡ some e
    → f.replay_key ≡ e.replay_key
    → (key == k) ≡ true
    → select k (upsert f db) ≡ some f
update_own k key db e f found same eq =
    ground
      (arith, select_key key db e found, select-upsert k f db, eq_iff f.replay_key k, eq_iff key k)

-- A key that the test finds equal, rewritten in the call and in the row that it found.
found_at :
    (k key : String) (db : Table) (o : Option Entry)
    → (key == k) ≡ true
    → select key db ≡ o
    → select k db ≡ o
found_at k key db o eq found = ground (arith, eq_iff key k)

module _ (k : String) (db : Table) where
  heartbeat_row-Move :
      (key : String) (secret token : Option String) (now : ℕ) {x : Result (Bool × Table)}
      → UpdateView (select key db) (may_beat token) (beaten now) db x
      → Move k (heartbeat key secret token now) (select k db) (select k (settle db x).1) false
  heartbeat_row-Move key secret token now (UpdateView.fails x) = kept refl refl
  heartbeat_row-Move key secret token now ignores = kept refl refl
  heartbeat_row-Move key secret token now (updates e code found may) =
      elim (Bool-cases (key == k)) [
        | inr ne ↦
            kept refl (
              update_other k key db e (record (beaten now e) { integrity_mac = code }) found refl
                ne)
        | inl eq ↦
            beat secret token e code (ap (λ j. heartbeat j secret token now) ((eq_iff key k).0 eq))
              refl (found_at k key db (some e) eq found) (ground arith) (ground arith)
              (update_own k key db e (record (beaten now e) { integrity_mac = code }) found refl eq)
      ]

  heartbeat-Move :
      (c : Crypto) (key : String) (secret token : Option String) (now : ℕ)
      → Move k
          (heartbeat key secret token now)
          (select k db)
          (select k (heartbeat_request_execution c key secret token now db).1)
          false
  unfolding heartbeat_request_execution
  heartbeat-Move c key secret token now = elim (Bool-cases (key == "")) [
    | inl e ↦ rw e (kept refl refl)
    | inr e ↦ rw e (
        heartbeat_row-Move key secret token now
          (heartbeat_row-view c secret token now (select key db) db))
  ]

  finalize_row-Move :
      (key : String) (state : State) (secret error token : Option String) (now : ℕ)
      {x : Result (Bool × Table)}
      → UpdateView (select key db) (may_close token) (finished now state error) db x
      → Move k
          (finalize key state secret error token now)
          (select k db)
          (select k (settle db x).1)
          false
  finalize_row-Move key state secret error token now (UpdateView.fails x) = kept refl refl
  finalize_row-Move key state secret error token now ignores = kept refl refl
  finalize_row-Move key state secret error token now (updates e code found may) =
      elim (Bool-cases (key == k)) [
        | inr ne ↦ kept refl (
            update_other k key db e (record (finished now state error e) { integrity_mac = code })
              found refl ne)
        | inl eq ↦
            closed state secret error token e code
              (ap (λ j. finalize j state secret error token now) ((eq_iff key k).0 eq)) refl
              (found_at k key db (some e) eq found) (ground arith)
              (update_own k key db e (record (finished now state error e) { integrity_mac = code })
                found refl eq)
      ]

  finalize-Move :
      (c : Crypto) (key : String) (state : State) (secret error token : Option String) (now : ℕ)
      → Move k
          (finalize key state secret error token now)
          (select k db)
          (select k (finalize_request_execution c key state secret error token now db).1)
          false
  unfolding finalize_request_execution
  finalize-Move c key state secret error token now = elim (Bool-cases (key == "")) [
    | inl e ↦ rw e (kept refl refl)
    | inr e ↦ rw e (
        finalize_row-Move key state secret error token now
          (finalize_row-view c state secret error token now (select key db) db))
  ]

-- Each call moves the row of each key by one step of the machine, and grants an execution for the
-- key exactly if the step is a start or a retry.
pub apply-Move :
    (c : Crypto) (k : String) (op : Op) (db : Table)
    → IsKeyed db
    → Move k op (select k db) (select k (apply c op db)) (grants c k op db)
unfolding apply grants
apply-Move c k (begin r now token) db h = begin-Move k db h c r now token
apply-Move c k (heartbeat key secret token now) db h = heartbeat-Move k db c key secret token now
apply-Move c k (finalize key state secret error token now) db h =
    finalize-Move k db c key state secret error token now
apply-Move c k (consume r now) db h = consume-Move k db h c r now
