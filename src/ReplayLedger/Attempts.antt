-- ===== src/ReplayLedger/Attempts.antt =====
-- A request is executed at most `MAX_REQUEST_ATTEMPTS` times while its entry is retained
-- (src/replay_ledger.py).
use agent_delegation_network.Crypto.{Crypto}
use agent_delegation_network.Prelude.{
  All, Bool, List, Option, String, arith, inl, inr, none, refl, some, subst, sym, ℕ, ◌+◌, ◌<◌, ◌≡◌,
  ◌≤◌, ◌⊎◌,
}
use agent_delegation_network.ReplayLedger.Entry.{Entry, max_request_attempts}
use agent_delegation_network.ReplayLedger.Execution.{Request}
use agent_delegation_network.ReplayLedger.Moves.{
  Move, Op, accepted, beat, begin, clock, closed, consume, finalize, gave_up, heartbeat, kept,
  lapsed, retried, started,
}
use agent_delegation_network.ReplayLedger.Table.{IsKeyed, Table, alive, select}
use agent_delegation_network.ReplayLedger.Traces.{grant_count, run_induction, tally}

-- The call is made before `horizon`, and a begin of the key asks for a retention up to it.
abbrev pub Retains : String → ℕ → Op → Type 0
Retains k horizon (begin r now token) =
    (now < horizon) × (r.replay_key ≡ k → horizon ≤ r.replay_expires_at)
Retains k horizon op = clock op < horizon

-- Grants so far against the row: each is counted as an attempt; a row that has seen none takes no
-- further attempt (a consumed result), and any other is
-- retained.
abbrev pub IsWithin : ℕ → ℕ → Option Entry → Type 0
IsWithin horizon g none = g ≡ 0
IsWithin horizon g (some e) =
    (g ≤ e.attempt_count)
    × (e.attempt_count ≤ e.max_attempts)
    × (e.max_attempts ≤ max_request_attempts)
    × ((g ≡ 0) × (e.max_attempts ≤ e.attempt_count) ⊎ (horizon ≤ e.expires_at))

clock_lt : (k : String) (horizon : ℕ) (op : Op) → Retains k horizon op → clock op < horizon
clock_lt k horizon (begin r now token) h = h.0
clock_lt k horizon (heartbeat key secret token now) h = h
clock_lt k horizon (finalize key state secret error token now) h = h
clock_lt k horizon (consume r now) h = h

retention :
    (k : String) (horizon : ℕ) (op : Op) (r : Request) (now : ℕ) (token : String)
    → Retains k horizon op
    → op ≡ begin r now token
    → r.replay_key ≡ k
    → horizon ≤ r.replay_expires_at
retention k horizon op r now token h e key = (subst (Retains k horizon) e h).1 key

-- With a grant, the row is still there at any time before the horizon.
alive-IsWithin :
    (horizon now g : ℕ) (o : Option Entry)
    → now < horizon
    → IsWithin horizon g o
    → IsWithin horizon g (alive now o)
alive-IsWithin horizon now g none t h = h
alive-IsWithin horizon now g (some e) t h = ground arith

step-IsWithin :
    (k : String) (horizon : ℕ) (op : Op) (o o' : Option Entry) (b : Bool) (g : ℕ)
    → Retains k horizon op
    → Move k op o o' b
    → IsWithin horizon g o
    → IsWithin horizon (tally b + g) o'
step-IsWithin k horizon op o o' b g q (kept e s) h =
    rw (e, s) (subst (λ n. IsWithin horizon n o) (omega arith) h)
step-IsWithin k horizon op o o' b g q (lapsed e s) h =
    rw (e, s)
      (subst (λ n. IsWithin horizon n (alive (clock op) o)) (omega arith)
        (alive-IsWithin horizon (clock op) g o (clock_lt k horizon op q) h))
step-IsWithin k horizon op o o' b g q (started r token code p key e a s) h =
    let w = alive-IsWithin horizon (clock op) g o (clock_lt k horizon op q) h in
    let z = subst (IsWithin horizon g) a w in
    let t = retention k horizon op r (clock op) token q p key in
    rw (e, s) (omega arith, omega arith, omega arith, inr t)
step-IsWithin k horizon op o o' b g q (gave_up r token e code p key eb a due spent s) h =
    let w = alive-IsWithin horizon (clock op) g o (clock_lt k horizon op q) h in
    let z = subst (IsWithin horizon g) a w in
    let t = retention k horizon op r (clock op) token q p key in rw (eb, s) (ground arith)
step-IsWithin k horizon op o o' b g q (retried r token e code p key eb a due left s) h =
    let w = alive-IsWithin horizon (clock op) g o (clock_lt k horizon op q) h in
    let z = subst (IsWithin horizon g) a w in
    let t = retention k horizon op r (clock op) token q p key in rw (eb, s) (ground arith)
step-IsWithin k horizon op o o' b g q (beat secret token e code p eb a busy same s) h =
    let z = subst (IsWithin horizon g) a h in rw (eb, s) (ground arith)
step-IsWithin k horizon op o o' b g q (closed state secret error token e code p eb a same s) h =
    let z = subst (IsWithin horizon g) a h in rw (eb, s) (ground arith)
step-IsWithin k horizon op o o' b g q (accepted r code p key e a s) h =
    let w = alive-IsWithin horizon (clock op) g o (clock_lt k horizon op q) h in
    let z = subst (IsWithin horizon g) a w in
    rw (e, s) (omega arith, omega arith, omega arith, inl (omega arith, omega arith))

IsWithin-limit :
    (horizon g : ℕ) (o : Option Entry) → IsWithin horizon g o → g ≤ max_request_attempts
IsWithin-limit horizon g none h = omega arith
IsWithin-limit horizon g (some e) h = omega arith

-- From a keyed table with no row of the key, over every sequence of ledger calls that are made
-- before `horizon` and whose begins of this key ask for a retention up to `horizon`, at most two
-- executions of the key are granted, whatever fails, crashes or is finalized in between.
pub at_most_two_executions :
    (c : Crypto) (k : String) (horizon : ℕ) (ops : List Op) (db : Table)
    → IsKeyed db
    → select k db ≡ none
    → All (Retains k horizon) ops
    → grant_count c k ops db ≤ 2
at_most_two_executions c k horizon ops db keyed absent q =
    let h =
      run_induction c k (IsWithin horizon) (Retains k horizon) (step-IsWithin k horizon) ops db 0
        keyed q (subst (IsWithin horizon 0) (sym absent) refl) in
    omega (arith, IsWithin-limit horizon _ _ h)
