-- ===== src/ReplayLedger/SealedCalls.antt =====
-- The calls of src/replay_ledger.py on a table whose rows all verify: none raises, and all rows verify
-- again.
-- The secret that a call is given.
use agent_delegation_network.Crypto.{Crypto}
use agent_delegation_network.Prelude.{
  All, Bool, Bool-cases, List, Option, Result, String, [], false, inl, inr, ok, refl, subst, sym,
  ◌==◌, ◌∷◌, ◌≡◌,
}
use agent_delegation_network.ReplayLedger.Consumption.{consume_block, consume_result_replay}
use agent_delegation_network.ReplayLedger.Entry.{given}
use agent_delegation_network.ReplayLedger.Execution.{
  Grant, begin_block, begin_request_execution, finalize_request_execution,
  heartbeat_request_execution, refused,
}
use agent_delegation_network.ReplayLedger.Integrity.{AllSealed, IsSealed, IsUsable}
use agent_delegation_network.ReplayLedger.Moves.{Op, apply, begin, consume, finalize, heartbeat}
use agent_delegation_network.ReplayLedger.Seals.{
  Succeeds, begin_row-Succeeds, consume_row-Succeeds, delete_expired-All, finalize_row-Succeeds,
  heartbeat_row-Succeeds, select-SealedRow,
}
use agent_delegation_network.ReplayLedger.Table.{Table, delete_expired, select, settle}
use agent_delegation_network.ReplayLedger.Traces.{run}

unfoldable pub call_secret : Op → Option String
call_secret (begin r now token) = r.integrity_secret_hex
call_secret (heartbeat key s token now) = s
call_secret (finalize key state s error token now) = s
call_secret (consume r now) = r.integrity_secret_hex

-- The call answers, that is, it raises nothing.
unfoldable pub Answers : Crypto → Op → Table → Type 0
Answers c (begin r now token) db =
    (g : Grant) × ((begin_request_execution c r now token db).0 ≡ ok g)
Answers c (heartbeat key s token now) db =
    (b : Bool) × ((heartbeat_request_execution c key s token now db).0 ≡ ok b)
Answers c (finalize key state s error token now) db =
    (b : Bool) × ((finalize_request_execution c key state s error token now db).0 ≡ ok b)
Answers c (consume r now) db = (v : Bool × String) × ((consume_result_replay c r now db).0 ≡ ok v)

settle_ok :
    {A : Type 0} (c : Crypto) (secret : Option String) (db : Table) (x : Result (A × Table))
    → Succeeds c secret x
    → ((a : A) × ((settle db x).0 ≡ ok a)) × AllSealed c secret (settle db x).1
unfolding Succeeds
settle_ok c secret db x (a, t, e, z) = rw e ((a, refl), z)

module _ (c : Crypto) where
  call_keeps :
      (op : Op) (db : Table)
      → IsUsable c (call_secret op)
      → AllSealed c (call_secret op) db
      → Answers c op db × AllSealed c (call_secret op) (apply c op db)
  unfolding call_secret Answers apply begin_request_execution begin_block
      heartbeat_request_execution finalize_request_execution consume_result_replay consume_block
  call_keeps (begin r now token) db u h = elim (Bool-cases (r.replay_key == "")) [
    | inl e ↦ rw (e, All) ((refused "Delegation request replay key missing", refl), h)
    | inr e ↦
        let live = delete_expired now db in
        let z = delete_expired-All (IsSealed c r.integrity_secret_hex) now db h in
        rw (e, All)
          (settle_ok c r.integrity_secret_hex db _ (
            begin_row-Succeeds c r now token u (select r.replay_key live) live
              (select-SealedRow c r.integrity_secret_hex u r.replay_key live z) z))
  ]
  call_keeps (heartbeat key secret token now) db u h = elim (Bool-cases (key == "")) [
    | inl e ↦ rw (e, All) ((false, refl), h)
    | inr e ↦
        rw (e, All)
          (settle_ok c secret db _ (
            heartbeat_row-Succeeds c secret u token now (select key db) db
              (select-SealedRow c secret u key db h) h))
  ]
  call_keeps (finalize key state secret error token now) db u h = elim (Bool-cases (key == "")) [
    | inl e ↦ rw (e, All) ((false, refl), h)
    | inr e ↦
        rw (e, All)
          (settle_ok c secret db _ (
            finalize_row-Succeeds c secret u state error token now (select key db) db
              (select-SealedRow c secret u key db h) h))
  ]
  call_keeps (consume r now) db u h = elim (Bool-cases (r.replay_key == "")) [
    | inl e ↦ rw (e, All) ((_, refl), h)
    | inr e ↦ elim (Bool-cases (given r.integrity_secret_hex)) [
      | inr g ↦ rw (e, g, All) ((_, refl), h)
      | inl g ↦
          let live = delete_expired now db in
          let z = delete_expired-All (IsSealed c r.integrity_secret_hex) now db h in
          rw (e, g, All)
            (settle_ok c r.integrity_secret_hex db _ (
              consume_row-Succeeds c r now u (select r.replay_key live) live
                (select-SealedRow c r.integrity_secret_hex u r.replay_key live z) z))
    ]
  ]

  -- From a table whose rows all verify under a usable secret (the empty table is one), after any calls
  -- made under that secret all rows verify again, and every further call under it answers: it raises
  -- neither the integrity failure nor anything else.
  pub sealed_calls_answer :
      (secret : Option String)
      → IsUsable c secret
      → (ops : List Op) (db : Table) → All (λ op. call_secret op ≡ secret) ops
      → AllSealed c secret db
      → AllSealed c secret (run c ops db)
        × ((op : Op) → call_secret op ≡ secret → Answers c op (run c ops db))
  unfolding run
  sealed_calls_answer secret u [] db _ h = (
    h,
    λ op same.
        (call_keeps op db (subst (IsUsable c) (sym same) u)
          (subst (λ s. AllSealed c s db) (sym same) h)).0,
  )
  sealed_calls_answer secret u (op ∷ ops) db (same, rest) h =
      let remaining =
        (call_keeps op db (subst (IsUsable c) (sym same) u)
          (subst (λ s. AllSealed c s db) (sym same) h)).1 in
      sealed_calls_answer secret u ops (apply c op db) rest
        (subst (λ s. AllSealed c s (apply c op db)) same remaining)
