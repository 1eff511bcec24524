-- ===== src/ReplayLedger/Results.antt =====
-- A worker's result is consumed once (`consume_result_replay` of src/replay_ledger.py).
use agent_delegation_network.Crypto.{Crypto}
use agent_delegation_network.Prelude.{
  All, Bool, Bool-cases, List, Option, Result, String, arith, eq_refl, false, inl, inr, none, ok,
  raised, refl, some, subst, sym, true, ℕ, ◌+◌, ◌<◌, ◌==◌, ◌∙◌, ◌≡◌, ◌≢◌, ◌≤◌,
}
use agent_delegation_network.ReplayLedger.Consumption.{
  ResultReplay, consume_result_replay, consumed_entry, effective_expires_at,
}
use agent_delegation_network.ReplayLedger.Entry.{Entry, given}
use agent_delegation_network.ReplayLedger.Execution.{Request}
use agent_delegation_network.ReplayLedger.Moves.{
  Move, Op, accepted, apply, beat, begin, clock, closed, consume, gave_up, kept, lapsed, retried,
  started,
}
use agent_delegation_network.ReplayLedger.Table.{
  IsKeyed, Table, alive, delete_expired, select, select-delete_expired, select-upsert, settle,
}
use agent_delegation_network.ReplayLedger.Traces.{
  apply-IsKeyed, grant_count, run, run-IsKeyed, run_induction, tally,
}
use agent_delegation_network.ReplayLedger.Views.{ConsumeView, accepts, consume_block-view}

-- The call is made before `horizon` and begins no execution of the key.
abbrev pub NoBegin : String → Op → Type 0
NoBegin k (begin r now token) = r.replay_key ≢ k
NoBegin k op = Unit

abbrev pub KeepsResult : String → ℕ → Op → Type 0
KeepsResult k horizon op = (clock op < horizon) × NoBegin k op

abbrev pub IsPresent : ℕ → ℕ → Option Entry → Type 0
IsPresent horizon g none = ⊥
IsPresent horizon g (some e) = horizon ≤ e.expires_at

alive-IsPresent :
    (horizon now g g' : ℕ) (o : Option Entry)
    → now < horizon
    → IsPresent horizon g o
    → IsPresent horizon g' (alive now o)
alive-IsPresent horizon now g g' none t h = h
alive-IsPresent horizon now g g' (some e) t h = ground arith

no_begin :
    (k : String) (op : Op) (r : Request) (now : ℕ) (token : String)
    → NoBegin k op
    → op ≡ begin r now token
    → r.replay_key ≡ k
    → ⊥
no_begin k op r now token h e key = subst (NoBegin k) e h key

step-IsPresent :
    (k : String) (horizon : ℕ) (op : Op) (o o' : Option Entry) (b : Bool) (g : ℕ)
    → KeepsResult k horizon op
    → Move k op o o' b
    → IsPresent horizon g o
    → IsPresent horizon (tally b + g) o'
step-IsPresent k horizon op none o' b g q m h = absurd h
step-IsPresent k horizon op (some x) o' b g q (kept e s) h = rw (e, s) h
step-IsPresent k horizon op (some x) o' b g q (lapsed e s) h =
    rw (e, s) (alive-IsPresent horizon (clock op) g (tally false + g) (some x) q.0 h)
step-IsPresent k horizon op (some x) o' b g q (started r token code p key e a s) h =
    absurd (no_begin k op r (clock op) token q.1 p key)
step-IsPresent k horizon op (some x) o' b g q (gave_up r token e code p key eb a due spent s) h =
    absurd (no_begin k op r (clock op) token q.1 p key)
step-IsPresent k horizon op (some x) o' b g q (retried r token e code p key eb a due left s) h =
    absurd (no_begin k op r (clock op) token q.1 p key)
step-IsPresent k horizon op (some x) o' b g q (beat secret token e code p eb a busy same s) h =
    let z = subst (IsPresent horizon g) a h in rw (eb, s) z
step-IsPresent k horizon op (some x) o' b g q (closed st secret error token e code p eb a same s)
      h =
    let z = subst (IsPresent horizon g) a h in rw (eb, s) z
step-IsPresent k horizon op (some x) o' b g q (accepted r code p key e a s) h =
    absurd (subst (IsPresent horizon g) a (alive-IsPresent horizon (clock op) g g (some x) q.0 h))

abbrev pub is_accepted : Result (Bool × String) → Bool
is_accepted (ok (won, reason)) = won
is_accepted (raised x) = false

-- An accepted result leaves a row that is retained up to its expiry.
view_accepted :
    (r : ResultReplay) (now : ℕ) (db : Table) {x : Result ((Bool × String) × Table)}
    → ConsumeView r now (delete_expired now db) x
    → is_accepted (settle db x).0 ≡ true
    → IsPresent (effective_expires_at r.expires_at now) 0 (select r.replay_key (settle db x).1)
view_accepted r now db (ConsumeView.fails x) h = cc
view_accepted r now db (ConsumeView.refuses reason) h = cc
view_accepted r now db (accepts code absent) h =
    rw
      (
        select-upsert r.replay_key (record (consumed_entry r now) { integrity_mac = code })
            (delete_expired now db),
        eq_refl r.replay_key,
      )
      (omega arith)

view_refused :
    (r : ResultReplay) (now horizon : ℕ) (db : Table) {x : Result ((Bool × String) × Table)}
    → IsKeyed db
    → now < horizon
    → IsPresent horizon 0 (select r.replay_key db)
    → ConsumeView r now (delete_expired now db) x
    → is_accepted (settle db x).0 ≡ false
view_refused r now horizon db keyed t p (ConsumeView.fails x) = refl
view_refused r now horizon db keyed t p (ConsumeView.refuses reason) = refl
view_refused r now horizon db keyed t p (accepts code absent) =
    let gone : alive now (select r.replay_key db) ≡ none =
      sym (select-delete_expired r.replay_key now db keyed) ∙ absent in
    absurd (
      subst (IsPresent horizon 0) gone
        (alive-IsPresent horizon now 0 0 (select r.replay_key db) t p))

module _ (c : Crypto) where
  consumed-IsPresent :
      (r : ResultReplay) (now : ℕ) (db : Table)
      → is_accepted (consume_result_replay c r now db).0 ≡ true
      → IsPresent
          (effective_expires_at r.expires_at now)
          0
          (select r.replay_key (consume_result_replay c r now db).1)
  unfolding consume_result_replay
  consumed-IsPresent r now db h = elim (Bool-cases (r.replay_key == "")) [
    | inl e ↦ cc (rw e at h)
    | inr e ↦ elim (Bool-cases (given r.integrity_secret_hex)) [
      | inl g ↦ rw (e, g) (view_accepted r now db (consume_block-view c r now db) (rw (e, g) at h))
      | inr g ↦ cc (rw (e, g) at h)
    ]
  ]

  present_refused :
      (r : ResultReplay) (now horizon : ℕ) (db : Table)
      → IsKeyed db
      → now < horizon
      → IsPresent horizon 0 (select r.replay_key db)
      → is_accepted (consume_result_replay c r now db).0 ≡ false
  unfolding consume_result_replay
  present_refused r now horizon db keyed t p = elim (Bool-cases (r.replay_key == "")) [
    | inl e ↦ rw e
    | inr e ↦ elim (Bool-cases (given r.integrity_secret_hex)) [
      | inl g ↦ rw (e, g) (view_refused r now horizon db keyed t p (consume_block-view c r now db))
      | inr g ↦ rw (e, g)
    ]
  ]

  IsPresent-weaken :
      (horizon g : ℕ) (o : Option Entry) → IsPresent horizon g o → IsPresent horizon 0 o
  IsPresent-weaken horizon g none h = h
  IsPresent-weaken horizon g (some e) h = h

  -- Once a result's key is consumed, no later consume of the key is accepted before the entry's
  -- expiry, whatever ledger calls that begin no execution of this key are made in between.
  pub result_consumed_once :
      (r s : ResultReplay) (now later : ℕ) (ops : List Op) (db : Table)
      → IsKeyed db
      → is_accepted (consume_result_replay c r now db).0 ≡ true
      → All (KeepsResult r.replay_key (effective_expires_at r.expires_at now)) ops
      → s.replay_key ≡ r.replay_key
      → later < effective_expires_at r.expires_at now
      → is_accepted
          (consume_result_replay c s later (run c ops (consume_result_replay c r now db).1)).0
        ≡ false
  unfolding apply
  result_consumed_once r s now later ops db keyed first q same t =
      let horizon = effective_expires_at r.expires_at now in
      let db' = (consume_result_replay c r now db).1 in
      let keyed' : IsKeyed db' = apply-IsKeyed c (consume r now) db keyed in
      let h =
        run_induction c r.replay_key (IsPresent horizon) (KeepsResult r.replay_key horizon)
          (step-IsPresent r.replay_key horizon) ops db' 0 keyed' q
          (consumed-IsPresent r now db first) in
      present_refused s later horizon (run c ops db') (run-IsKeyed c ops db' keyed') t (
        rw same (
          IsPresent-weaken horizon (grant_count c r.replay_key ops db' + 0)
            (select r.replay_key (run c ops db')) h))
