-- ===== src/ReplayLedger/Traces.antt =====
-- Sequences of ledger calls. The transactions of several processes are serialised by
-- BEGIN IMMEDIATE (src/replay_ledger.py), so an interleaving of them is such a sequence.
use agent_delegation_network.Crypto.{Crypto}
use agent_delegation_network.Prelude.{
  All, Bool, Bool-cases, List, Option, Result, String, [], arith, false, inl, inr, subst, true, ℕ,
  ◌+◌, ◌==◌, ◌∷◌,
}
use agent_delegation_network.ReplayLedger.Consumption.{ResultReplay, consume_result_replay}
use agent_delegation_network.ReplayLedger.Entry.{Entry, given}
use agent_delegation_network.ReplayLedger.Execution.{
  Grant, Request, begin_request_execution, finalize_request_execution, heartbeat_request_execution,
}
use agent_delegation_network.ReplayLedger.Moves.{
  Move, Op, apply, begin, consume, finalize, grants, heartbeat,
}
use agent_delegation_network.ReplayLedger.Steps.{apply-Move}
use agent_delegation_network.ReplayLedger.Table.{
  IsKeyed, Table, delete_expired, delete_expired-IsKeyed, select, settle, upsert-IsKeyed,
}
use agent_delegation_network.ReplayLedger.Views.{
  BeginView, ConsumeView, UpdateView, accepts, begin_block-view, consume_block-view,
  finalize_row-view, heartbeat_row-view, ignores, retries, starts, updates,
}

-- A table stays keyed, whatever an operation does.
BeginView-IsKeyed :
    (r : Request) (now : ℕ) (token : String) (db : Table) {x : Result (Grant × Table)}
    → IsKeyed db
    → BeginView r now token (delete_expired now db) x
    → IsKeyed (settle db x).1
BeginView-IsKeyed r now token db h (BeginView.fails x) = h
BeginView-IsKeyed r now token db h (BeginView.refuses reason) = delete_expired-IsKeyed now db h
BeginView-IsKeyed r now token db h (starts code a) =
    upsert-IsKeyed _ _ (delete_expired-IsKeyed now db h)
BeginView-IsKeyed r now token db h (BeginView.gives_up e code a b d) =
    upsert-IsKeyed _ _ (delete_expired-IsKeyed now db h)
BeginView-IsKeyed r now token db h (retries e code a b d) =
    upsert-IsKeyed _ _ (delete_expired-IsKeyed now db h)

UpdateView-IsKeyed :
    {o : Option Entry} {guard : Entry → Bool} {next : Entry → Entry} {db : Table}
    {x : Result (Bool × Table)}
    → IsKeyed db
    → UpdateView o guard next db x
    → IsKeyed (settle db x).1
UpdateView-IsKeyed h (UpdateView.fails x) = h
UpdateView-IsKeyed h ignores = h
UpdateView-IsKeyed h (updates e code a b) = upsert-IsKeyed _ _ h

ConsumeView-IsKeyed :
    (r : ResultReplay) (now : ℕ) (db : Table) {x : Result ((Bool × String) × Table)}
    → IsKeyed db
    → ConsumeView r now (delete_expired now db) x
    → IsKeyed (settle db x).1
ConsumeView-IsKeyed r now db h (ConsumeView.fails x) = h
ConsumeView-IsKeyed r now db h (ConsumeView.refuses reason) = delete_expired-IsKeyed now db h
ConsumeView-IsKeyed r now db h (accepts code a) =
    upsert-IsKeyed _ _ (delete_expired-IsKeyed now db h)

module _ (c : Crypto) where
  pub apply-IsKeyed : (op : Op) (db : Table) → IsKeyed db → IsKeyed (apply c op db)
  unfolding apply begin_request_execution heartbeat_request_execution finalize_request_execution
      consume_result_replay
  apply-IsKeyed (begin r now token) db h = elim (Bool-cases (r.replay_key == "")) [
    | inl e ↦ rw (e, IsKeyed) h
    | inr e ↦
        rw (e, IsKeyed) (BeginView-IsKeyed r now token db h (begin_block-view c r now token db))
  ]
  apply-IsKeyed (heartbeat key secret token now) db h = elim (Bool-cases (key == "")) [
    | inl e ↦ rw (e, IsKeyed) h
    | inr e ↦
        rw (e, IsKeyed)
          (UpdateView-IsKeyed h (heartbeat_row-view c secret token now (select key db) db))
  ]
  apply-IsKeyed (finalize key state secret error token now) db h = elim (Bool-cases (key == "")) [
    | inl e ↦ rw (e, IsKeyed) h
    | inr e ↦
        rw (e, IsKeyed)
          (UpdateView-IsKeyed h
            (finalize_row-view c state secret error token now (select key db) db))
  ]
  apply-IsKeyed (consume r now) db h = elim (Bool-cases (r.replay_key == "")) [
    | inl e ↦ rw (e, IsKeyed) h
    | inr e ↦
        rw (e, IsKeyed)
          (elim (Bool-cases (given r.integrity_secret_hex)) [
            | inl g ↦
                rw (g, IsKeyed) (ConsumeView-IsKeyed r now db h (consume_block-view c r now db))
            | inr g ↦ rw (g, IsKeyed) h
          ])
  ]

  -- The table after a sequence of calls.
  unfoldable pub run : List Op → Table → Table
  run [] db = db
  run (op ∷ ops) db = run ops (apply c op db)

  -- No sequence of calls leaves two rows with one key in a table that has none.
  pub run-IsKeyed : (ops : List Op) (db : Table) → IsKeyed db → IsKeyed (run ops db)
  unfolding run
  run-IsKeyed [] db h = h
  run-IsKeyed (op ∷ ops) db h = run-IsKeyed ops (apply c op db) (apply-IsKeyed op db h)

abbrev pub tally : Bool → ℕ
tally true = 1
tally false = 0

-- How many executions of the key a sequence of calls grants.
unfoldable pub grant_count : Crypto → String → List Op → Table → ℕ
grant_count c k [] db = 0
grant_count c k (op ∷ ops) db = tally (grants c k op db) + grant_count c k ops (apply c op db)

-- An invariant of one key's row and of the number of grants so far, from its steps.
module _ (c : Crypto) (k : String) (P : ℕ → Option Entry → Type 0) (Q : Op → Type 0)
    (step : (op : Op) (o o' : Option Entry) (b : Bool) (g : ℕ)
      → Q op
      → Move k op o o' b
      → P g o
      → P (tally b + g) o') where
  pub run_induction :
      (ops : List Op) (db : Table) (g : ℕ)
      → IsKeyed db
      → All Q ops
      → P g (select k db)
      → P (grant_count c k ops db + g) (select k (run c ops db))
  unfolding run grant_count
  run_induction [] db g h q p = subst (λ n. P n (select k db)) (omega arith) p
  run_induction (op ∷ ops) db g h q p =
      let rest : P (grant_count c k ops (apply c op db) + (tally (grants c k op db) + g))
          (select k (run c ops (apply c op db))) =
        run_induction ops (apply c op db) (tally (grants c k op db) + g) (apply-IsKeyed c op db h)
          q.1 (step op _ _ _ g q.0 (apply-Move c k op db h) p) in
      subst (λ n. P n (select k (run c ops (apply c op db)))) (omega arith) rest
