-- ===== src/ReplayLedger/Views.antt =====
-- What the block of each transaction can return, one constructor for each way.
use agent_delegation_network.Crypto.{Crypto}
use agent_delegation_network.Prelude.{
  Bool, Bool-cases, Exception, Option, Option-cases, Result, Result-cases, String, arith, false,
  inl, inr, leb, ltb, none, not, ok, raised, refl, some, true, ℕ, ◌&&◌, ◌-◌, ◌<◌, ◌≡◌, ◌≤◌, ◌⊎◌,
}
use agent_delegation_network.ReplayLedger.Consumption.{
  ResultReplay, consume_block, consume_row, consumed_entry,
}
use agent_delegation_network.ReplayLedger.Entry.{
  Entry, State, compute_integrity_mac, running_lease, verify_integrity,
}
use agent_delegation_network.ReplayLedger.Execution.{
  Grant, Request, beaten, begin_block, begin_existing, begin_row, exhausted, finalize_row, finished,
  first_attempt, heartbeat_row, is_running, next_attempt, refusal, refused, retry_limit_exceeded,
  token_differs, write_record,
}
use agent_delegation_network.ReplayLedger.Table.{Table, delete_expired, select, upsert}

module _ (r : Request) (now : ℕ) (token : String) (live : Table) where
  pub data BeginView : Result (Grant × Table) → Type 0 where
    fails : (x : Exception) → BeginView (raised x)
    refuses : (reason : String) → BeginView (ok (refused reason, live))
    starts :
        (code : Option String)
        → select r.replay_key live ≡ none
        → BeginView (
            ok (
              (true, "", some token),
              upsert (record (first_attempt r now token) { integrity_mac = code }) live,
            ))
    gives_up :
        (e : Entry) (code : Option String)
        → select r.replay_key live ≡ some e
        → refusal e.state (ltb (now - e.updated_at) running_lease) ≡ none
        → e.max_attempts ≤ e.attempt_count
        → BeginView (
            ok (
              refused retry_limit_exceeded,
              upsert (record (exhausted r now e) { integrity_mac = code }) live,
            ))
    retries :
        (e : Entry) (code : Option String)
        → select r.replay_key live ≡ some e
        → refusal e.state (ltb (now - e.updated_at) running_lease) ≡ none
        → e.attempt_count < e.max_attempts
        → BeginView (
            ok (
              (true, "", some token),
              upsert (record (next_attempt r now token e) { integrity_mac = code }) live,
            ))

-- A write fails or puts the entry with some code.
pub write_view :
    (c : Crypto) (secret : Option String) (e : Entry) (db : Table)
    → ((x : Exception) × (write_record c secret e db ≡ raised x))
      ⊎ ((code : Option String) × (write_record c secret e db
            ≡ ok (upsert (record e { integrity_mac = code }) db)))
unfolding write_record
write_view c secret e db = elim (Result-cases (compute_integrity_mac c e secret)) [
  | inl (code, p) ↦ inr (code, rw p)
  | inr (x, p) ↦ inl (x, rw p)
]

module _ (c : Crypto) (r : Request) (now : ℕ) (token : String) (live : Table) where
  begin_existing-view :
      (e : Entry)
      → select r.replay_key live ≡ some e
      → BeginView r now token live (begin_existing c r now token e live)
  unfolding begin_existing
  begin_existing-view e found =
      elim (Option-cases (refusal e.state (ltb (now - e.updated_at) running_lease))) [
        | inr (reason, p) ↦ rw (p, begin_existing) (refuses reason)
        | inl p ↦
            rw (p, begin_existing)
              (elim (Bool-cases (leb e.max_attempts e.attempt_count)) [
                | inl q ↦
                    rw q (elim (write_view c r.integrity_secret_hex (exhausted r now e) live) [
                      | inl (x, w) ↦ rw w (fails x)
                      | inr (code, w) ↦ rw w (gives_up e code found p (ground arith))
                    ])
                | inr q ↦
                    rw q
                      (elim (write_view c r.integrity_secret_hex (next_attempt r now token e)
                        live) [
                          | inl (x, w) ↦ rw w (fails x)
                          | inr (code, w) ↦ rw w (retries e code found p (ground arith))
                        ])
              ])
      ]

  begin_row-view :
      (o : Option Entry)
      → select r.replay_key live ≡ o
      → BeginView r now token live (begin_row c r now token o live)
  unfolding begin_row
  begin_row-view none absent =
      elim (write_view c r.integrity_secret_hex (first_attempt r now token) live) [
        | inl (x, w) ↦ rw w (fails x)
        | inr (code, w) ↦ rw w (starts code absent)
      ]
  begin_row-view (some e) found =
      elim (Result-cases (verify_integrity c e r.integrity_secret_hex)) [
        | inl (u, v) ↦ rw v (begin_existing-view e found)
        | inr (x, v) ↦ rw v (fails x)
      ]

pub begin_block-view :
    (c : Crypto) (r : Request) (now : ℕ) (token : String) (db : Table)
    → BeginView r now token (delete_expired now db) (begin_block c r now token db)
unfolding begin_block
begin_block-view c r now token db =
    begin_row-view c r now token (delete_expired now db)
      (select r.replay_key (delete_expired now db)) refl

-- A heartbeat or a finalize fails, answers `False`, or replaces the row that it found by `next`.
pub data UpdateView (o : Option Entry) (guard : Entry → Bool) (next : Entry → Entry) (db : Table)
    : Result (Bool × Table) → Type 0 where
  fails : (x : Exception) → UpdateView o guard next db (raised x)
  ignores : UpdateView o guard next db (ok (false, db))
  updates :
      (e : Entry) (code : Option String)
      → o ≡ some e
      → guard e ≡ true
      → UpdateView o guard next db (ok (true, upsert (record (next e) { integrity_mac = code }) db))

abbrev pub may_beat : Option String → Entry → Bool
may_beat token e = is_running e.state && not (token_differs e.execution_token token)

abbrev pub may_close : Option String → Entry → Bool
may_close token e = not (token_differs e.execution_token token)

pub heartbeat_row-view :
    (c : Crypto) (secret token : Option String) (now : ℕ) (o : Option Entry) (db : Table)
    → UpdateView o (may_beat token) (beaten now) db (heartbeat_row c secret token now o db)
unfolding heartbeat_row
heartbeat_row-view c secret token now none db = ignores
heartbeat_row-view c secret token now (some e) db =
    elim (Result-cases (verify_integrity c e secret)) [
      | inr (x, v) ↦ rw v (fails x)
      | inl (u, v) ↦ rw v (elim (Bool-cases (is_running e.state)) [
        | inr idle ↦ rw idle ignores
        | inl p ↦ rw p (elim (Bool-cases (token_differs e.execution_token token)) [
          | inl foreign ↦ rw foreign ignores
          | inr q ↦ rw q (elim (write_view c secret (beaten now e) db) [
            | inl (x, w) ↦ rw w (fails x)
            | inr (code, w) ↦ rw w (updates e code refl (rw (p, q)))
          ])
        ])
      ])
    ]

pub finalize_row-view :
    (c : Crypto) (state : State) (secret error token : Option String) (now : ℕ) (o : Option Entry)
    (db : Table)
    → UpdateView o
        (may_close token)
        (finished now state error)
        db
        (finalize_row c state secret error token now o db)
unfolding finalize_row
finalize_row-view c state secret error token now none db = ignores
finalize_row-view c state secret error token now (some e) db =
    elim (Result-cases (verify_integrity c e secret)) [
      | inr (x, v) ↦ rw v (fails x)
      | inl (u, v) ↦ rw v (elim (Bool-cases (token_differs e.execution_token token)) [
        | inl foreign ↦ rw foreign ignores
        | inr q ↦ rw q (elim (write_view c secret (finished now state error e) db) [
          | inl (x, w) ↦ rw w (fails x)
          | inr (code, w) ↦ rw w (updates e code refl (rw q))
        ])
      ])
    ]

pub data ConsumeView (r : ResultReplay) (now : ℕ) (live : Table)
    : Result ((Bool × String) × Table) → Type 0 where
  fails : (x : Exception) → ConsumeView r now live (raised x)
  refuses : (reason : String) → ConsumeView r now live (ok ((false, reason), live))
  accepts :
      (code : Option String)
      → select r.replay_key live ≡ none
      → ConsumeView r now live
          (ok ((true, ""), upsert (record (consumed_entry r now) { integrity_mac = code }) live))

consume_row-view :
    (c : Crypto) (r : ResultReplay) (now : ℕ) (live : Table) (o : Option Entry)
    → select r.replay_key live ≡ o
    → ConsumeView r now live (consume_row c r now o live)
unfolding consume_row
consume_row-view c r now live none absent =
    elim (write_view c r.integrity_secret_hex (consumed_entry r now) live) [
      | inl (x, w) ↦ rw w (fails x)
      | inr (code, w) ↦ rw w (accepts code absent)
    ]
consume_row-view c r now live (some e) found =
    elim (Result-cases (verify_integrity c e r.integrity_secret_hex)) [
      | inl (u, v) ↦ rw v (refuses "result replay already consumed")
      | inr (x, v) ↦ rw v (fails x)
    ]

pub consume_block-view :
    (c : Crypto) (r : ResultReplay) (now : ℕ) (db : Table)
    → ConsumeView r now (delete_expired now db) (consume_block c r now db)
unfolding consume_block
consume_block-view c r now db =
    consume_row-view c r now (delete_expired now db) (select r.replay_key (delete_expired now db))
      refl
