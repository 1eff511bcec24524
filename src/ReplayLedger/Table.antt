-- ===== src/ReplayLedger/Table.antt =====
-- The table `replay_entries`, the SQL statements of src/replay_ledger.py on it, and a transaction,
-- which commits on every return and is rolled back when the block raises.
use agent_delegation_network.Prelude.{
  List, Option, Result, String, [], arith, eq_iff, if◌then◌else◌, leb, none, ok, raised, refl, some,
  ℕ, ◌==◌, ◌∷◌, ◌≡◌,
}
use agent_delegation_network.ReplayLedger.Entry.{Entry}

abbrev pub Table : Type 0
Table = List Entry

-- SELECT * FROM replay_entries WHERE replay_key = ?
unfoldable pub select : String → Table → Option Entry
select k [] = none
select k (e ∷ db) = if e.replay_key == k then some e else select k db

-- DELETE FROM replay_entries WHERE expires_at <= ?
unfoldable pub delete_expired : ℕ → Table → Table
delete_expired now [] = []
delete_expired now (e ∷ db) =
    let rest = delete_expired now db in if leb e.expires_at now then rest else e ∷ rest

-- INSERT … ON CONFLICT(replay_key) DO UPDATE SET …, where every column is set
unfoldable pub upsert : Entry → Table → Table
upsert e [] = e ∷ []
upsert e (f ∷ db) = if f.replay_key == e.replay_key then e ∷ db else f ∷ upsert e db

-- The primary key: no two rows have one key.
abbrev pub IsKeyed : Table → Type 0
IsKeyed [] = Unit
IsKeyed (e ∷ db) = (select e.replay_key db ≡ none) × IsKeyed db

abbrev pub settle {ℓ} : {A : Type ℓ} → Table → Result (A × Table) → Result A × Table
settle db (ok (a, db')) = (ok a, db')
settle db (raised e) = (raised e, db)

abbrev pub transaction {ℓ} : {A : Type ℓ} → (Table → Result (A × Table)) → Table → Result A × Table
transaction block db = settle db (block db)

-- What is left of a row that is looked up after the expired ones are deleted.
abbrev pub alive : ℕ → Option Entry → Option Entry
alive now none = none
alive now (some e) = if leb e.expires_at now then none else some e

pub select-upsert :
    (k : String) (e : Entry) (db : Table)
    → select k (upsert e db) ≡ (if e.replay_key == k then some e else select k db)
unfolding select upsert
select-upsert k e [] = refl
select-upsert k e (f ∷ db) = ground (
  arith,
  eq_iff e.replay_key k,
  eq_iff f.replay_key k,
  eq_iff f.replay_key e.replay_key,
  select-upsert k e db,
)

-- A row that is found has the key that was asked for.
pub select_key : (k : String) (db : Table) (e : Entry) → select k db ≡ some e → e.replay_key ≡ k
unfolding select
select_key k [] e h = cc
select_key k (f ∷ db) e h = ground (arith, eq_iff f.replay_key k, select_key k db e)

pub select-delete_expired-none :
    (k : String) (now : ℕ) (db : Table)
    → select k db ≡ none
    → select k (delete_expired now db) ≡ none
unfolding select delete_expired
select-delete_expired-none k now [] h = refl
select-delete_expired-none k now (f ∷ db) h = ground (arith, select-delete_expired-none k now db)

pub select-delete_expired :
    (k : String) (now : ℕ) (db : Table)
    → IsKeyed db
    → select k (delete_expired now db) ≡ alive now (select k db)
unfolding select delete_expired
select-delete_expired k now [] h = refl
select-delete_expired k now (f ∷ db) h = ground (
  arith,
  eq_iff f.replay_key k,
  select-delete_expired k now db h.1,
  select-delete_expired-none k now db,
)

pub upsert-IsKeyed : (e : Entry) (db : Table) → IsKeyed db → IsKeyed (upsert e db)
unfolding select upsert
upsert-IsKeyed e [] h = (refl, tt)
upsert-IsKeyed e (f ∷ db) h = ground (
  arith,
  eq_iff f.replay_key e.replay_key,
  eq_iff e.replay_key f.replay_key,
  select-upsert f.replay_key e db,
  upsert-IsKeyed e db h.1,
)

pub delete_expired-IsKeyed : (now : ℕ) (db : Table) → IsKeyed db → IsKeyed (delete_expired now db)
unfolding delete_expired
delete_expired-IsKeyed now [] h = tt
delete_expired-IsKeyed now (f ∷ db) h =
    ground
      (arith, select-delete_expired-none f.replay_key now db, delete_expired-IsKeyed now db h.1)
