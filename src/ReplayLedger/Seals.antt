-- ===== src/ReplayLedger/Seals.antt =====
-- The transactions of src/replay_ledger.py on a table whose rows all verify.
use agent_delegation_network.Crypto.{Crypto}
use agent_delegation_network.Prelude.{
  All, Bool-cases, Option, Option-cases, Result, String, [], false, inl, inr, leb, ltb, none, ok,
  refl, some, true, ℕ, ◌-◌, ◌==◌, ◌∷◌, ◌≡◌,
}
use agent_delegation_network.ReplayLedger.Answers.{SealedRow}
use agent_delegation_network.ReplayLedger.Consumption.{ResultReplay, consume_row, consumed_entry}
use agent_delegation_network.ReplayLedger.Entry.{Entry, State, running_lease}
use agent_delegation_network.ReplayLedger.Execution.{
  Request, beaten, begin_existing, begin_row, exhausted, finalize_row, finished, first_attempt,
  heartbeat_row, is_running, next_attempt, refusal, refused, retry_limit_exceeded, token_differs,
  write_and,
}
use agent_delegation_network.ReplayLedger.Integrity.{
  AllSealed, IsSealed, IsUsable, select-AllSealed, write-IsSealed,
}
use agent_delegation_network.ReplayLedger.Table.{Table, delete_expired, select, upsert}

upsert-All : (P : Entry → Type 0) (e : Entry) (db : Table) → P e → All P db → All P (upsert e db)
unfolding upsert
upsert-All P e [] p h = (p, tt)
upsert-All P e (f ∷ db) p h = elim (Bool-cases (f.replay_key == e.replay_key)) [
  | inl q ↦ rw q (p, h.1)
  | inr q ↦ rw q (h.0, upsert-All P e db p h.1)
]

pub delete_expired-All :
    (P : Entry → Type 0) (now : ℕ) (db : Table) → All P db → All P (delete_expired now db)
unfolding delete_expired
delete_expired-All P now [] h = tt
delete_expired-All P now (e ∷ db) h = elim (Bool-cases (leb e.expires_at now)) [
  | inl q ↦ rw q (delete_expired-All P now db h.1)
  | inr q ↦ rw q (h.0, delete_expired-All P now db h.1)
]

-- A transaction that answers, and leaves a table whose rows verify.
unfoldable pub Succeeds : {A : Type 0} → Crypto → Option String → Result (A × Table) → Type 0
Succeeds {A} c secret x = (a : A) × (t : Table) × (x ≡ ok (a, t)) × AllSealed c secret t

module _ (c : Crypto) (secret : Option String) (u : IsUsable c secret) where
  write_and-Succeeds :
      {A : Type 0} (e : Entry) (a : A) (db : Table)
      → AllSealed c secret db
      → Succeeds c secret (write_and c secret e a db)
  unfolding Succeeds
  write_and-Succeeds e a db h =
      let (code, w, z) = write-IsSealed c secret e db u in
      (
        a,
        upsert (record e { integrity_mac = code }) db,
        rw w refl,
        upsert-All (IsSealed c secret) (record e { integrity_mac = code }) db z h,
      )

  pub heartbeat_row-Succeeds :
      (token : Option String) (now : ℕ) (o : Option Entry) (db : Table)
      → SealedRow c secret o
      → AllSealed c secret db
      → Succeeds c secret (heartbeat_row c secret token now o db)
  unfolding heartbeat_row Succeeds
  heartbeat_row-Succeeds token now none db s h = (false, db, refl, h)
  heartbeat_row-Succeeds token now (some e) db s h = elim (Bool-cases (is_running e.state)) [
    | inr p ↦ (false, db, rw s (rw p refl), h)
    | inl p ↦ elim (Bool-cases (token_differs e.execution_token token)) [
      | inl q ↦ (false, db, rw s (rw p (rw q refl)), h)
      | inr q ↦
          let (a, t, w, z) = write_and-Succeeds (beaten now e) true db h in
          (a, t, rw s (rw p (rw q w)), z)
    ]
  ]

  pub finalize_row-Succeeds :
      (state : State) (error token : Option String) (now : ℕ) (o : Option Entry) (db : Table)
      → SealedRow c secret o
      → AllSealed c secret db
      → Succeeds c secret (finalize_row c state secret error token now o db)
  unfolding finalize_row Succeeds
  finalize_row-Succeeds state error token now none db s h = (false, db, refl, h)
  finalize_row-Succeeds state error token now (some e) db s h =
      elim (Bool-cases (token_differs e.execution_token token)) [
        | inl q ↦ (false, db, rw s (rw q refl), h)
        | inr q ↦
            let (a, t, w, z) = write_and-Succeeds (finished now state error e) true db h in
            (a, t, rw s (rw q w), z)
      ]

  pub select-SealedRow :
      (k : String) (db : Table) → AllSealed c secret db → SealedRow c secret (select k db)
  select-SealedRow k db h = sealed (select k db) refl
    where
      sealed : (o : Option Entry) → select k db ≡ o → SealedRow c secret o
      sealed none p = tt
      sealed (some e) p = select-AllSealed c secret k db e h p

module _ (c : Crypto) (r : Request) (now : ℕ) (token : String)
    (u : IsUsable c r.integrity_secret_hex) where
  begin_existing-Succeeds :
      (e : Entry) (db : Table)
      → AllSealed c r.integrity_secret_hex db
      → Succeeds c r.integrity_secret_hex (begin_existing c r now token e db)
  unfolding begin_existing
  begin_existing-Succeeds e db h =
      elim (Option-cases (refusal e.state (ltb (now - e.updated_at) running_lease))) [
        | inr (reason, p) ↦
            rw (p, begin_existing) (unfold Succeeds in (refused reason, db, refl, h))
        | inl p ↦ elim (Bool-cases (leb e.max_attempts e.attempt_count)) [
          | inl q ↦
              rw (p, begin_existing)
                (rw q (
                  write_and-Succeeds c r.integrity_secret_hex u (exhausted r now e)
                    (refused retry_limit_exceeded) db h))
          | inr q ↦
              rw (p, begin_existing)
                (rw q (
                  write_and-Succeeds c r.integrity_secret_hex u (next_attempt r now token e) _ db
                    h))
        ]
      ]

  pub begin_row-Succeeds :
      (o : Option Entry) (db : Table)
      → SealedRow c r.integrity_secret_hex o
      → AllSealed c r.integrity_secret_hex db
      → Succeeds c r.integrity_secret_hex (begin_row c r now token o db)
  unfolding begin_row
  begin_row-Succeeds none db s h =
      write_and-Succeeds c r.integrity_secret_hex u (first_attempt r now token) _ db h
  begin_row-Succeeds (some e) db s h = rw s (begin_existing-Succeeds e db h)

module _ (c : Crypto) (r : ResultReplay) (now : ℕ) (u : IsUsable c r.integrity_secret_hex) where
  pub consume_row-Succeeds :
      (o : Option Entry) (db : Table)
      → SealedRow c r.integrity_secret_hex o
      → AllSealed c r.integrity_secret_hex db
      → Succeeds c r.integrity_secret_hex (consume_row c r now o db)
  unfolding consume_row
  consume_row-Succeeds none db s h =
      write_and-Succeeds c r.integrity_secret_hex u (consumed_entry r now) _ db h
  consume_row-Succeeds (some e) db s h = rw s (unfold Succeeds in (_, db, refl, h))
