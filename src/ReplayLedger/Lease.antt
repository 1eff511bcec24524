-- ===== src/ReplayLedger/Lease.antt =====
-- While a granted execution holds its lease, no other is granted (src/replay_ledger.py).
use agent_delegation_network.Crypto.{Crypto}
use agent_delegation_network.Prelude.{
  All, Bool, List, Option, String, arith, eq_iff, false, ltb, none, refl, some, subst, sym, ℕ, ◌+◌,
  ◌-◌, ◌<◌, ◌≡◌, ◌≢◌, ◌≤◌,
}
use agent_delegation_network.ReplayLedger.Entry.{Entry, State, running, running_lease}
use agent_delegation_network.ReplayLedger.Execution.{refusal, token_differs}
use agent_delegation_network.ReplayLedger.Moves.{
  Move, Op, accepted, beat, clock, closed, finalize, gave_up, kept, lapsed, retried, started,
}
use agent_delegation_network.ReplayLedger.Table.{IsKeyed, Table, alive, select}
use agent_delegation_network.ReplayLedger.Traces.{grant_count, run, run_induction, tally}

-- The call is made in the lease that began at `since`, before the retention ends, and is no finalize
-- by the holder.
abbrev pub NoRelease : String → String → Op → Type 0
NoRelease k holder (finalize key state secret error token now) = key ≡ k → token ≢ some holder
NoRelease k holder op = Unit

abbrev pub InLease : String → String → ℕ → ℕ → Op → Type 0
InLease k holder since horizon op =
    (since ≤ clock op)
    × (clock op < since + running_lease)
    × (clock op < horizon)
    × NoRelease k holder op

abbrev pub IsHeld : String → ℕ → ℕ → ℕ → Option Entry → Type 0
IsHeld holder since horizon g none = ⊥
IsHeld holder since horizon g (some e) =
    (e.state ≡ running)
    × (e.execution_token ≡ some holder)
    × (since ≤ e.updated_at)
    × (horizon ≤ e.expires_at)
    × (g ≡ 0)

alive-IsHeld :
    (holder : String) (since horizon now g : ℕ) (o : Option Entry)
    → now < horizon
    → IsHeld holder since horizon g o
    → IsHeld holder since horizon g (alive now o)
alive-IsHeld holder since horizon now g none t h = h
alive-IsHeld holder since horizon now g (some e) t h = ground arith

-- The holder's row refuses a begin for as long as the lease runs.
held_refuses :
    (e : Entry) (since now : ℕ)
    → e.state ≡ running
    → since ≤ e.updated_at
    → now < since + running_lease
    → refusal e.state (ltb (now - e.updated_at) running_lease) ≢ none
unfolding refusal
held_refuses e since now s u t h = ground arith

-- Another token is not the holder's, so it does not close the row.
foreign_token :
    (holder : String) (token : Option String)
    → holder ≢ ""
    → token_differs (some holder) token ≡ false
    → token ≡ some holder
foreign_token holder none ne h = ground (arith, eq_iff holder "")
foreign_token holder (some t) ne h = ground (arith, eq_iff holder "", eq_iff holder t)

no_release :
    (k holder : String) (op : Op) (state : State) (secret error token : Option String) (now : ℕ)
    → NoRelease k holder op
    → op ≡ finalize k state secret error token now
    → token ≢ some holder
no_release k holder op state secret error token now h e = subst (NoRelease k holder) e h refl

step-IsHeld :
    (k holder : String) (since horizon : ℕ)
    → holder ≢ ""
    → (op : Op) (o o' : Option Entry) (b : Bool) (g : ℕ) → InLease k holder since horizon op
    → Move k op o o' b
    → IsHeld holder since horizon g o
    → IsHeld holder since horizon (tally b + g) o'
step-IsHeld k holder since horizon ne op none o' b g q m h = absurd h
step-IsHeld k holder since horizon ne op (some x) o' b g q (kept e s) h = rw (e, s) (ground arith)
step-IsHeld k holder since horizon ne op (some x) o' b g q (lapsed e s) h =
    rw (e, s)
      (subst (λ n. IsHeld holder since horizon n (alive (clock op) (some x))) (omega arith)
        (alive-IsHeld holder since horizon (clock op) g (some x) q.2 h))
step-IsHeld k holder since horizon ne op (some x) o' b g q (started r token code p key e a s) h =
    absurd (
      subst (IsHeld holder since horizon g) a
        (alive-IsHeld holder since horizon (clock op) g (some x) q.2 h))
step-IsHeld k holder since horizon ne op (some x) o' b g q
      (gave_up r token e code p key eb a due spent s) h =
    let z =
      subst (IsHeld holder since horizon g) a
        (alive-IsHeld holder since horizon (clock op) g (some x) q.2 h) in
    absurd (held_refuses e since (clock op) z.0 z.2 q.1 due)
step-IsHeld k holder since horizon ne op (some x) o' b g q
      (retried r token e code p key eb a due left s) h =
    let z =
      subst (IsHeld holder since horizon g) a
        (alive-IsHeld holder since horizon (clock op) g (some x) q.2 h) in
    absurd (held_refuses e since (clock op) z.0 z.2 q.1 due)
step-IsHeld k holder since horizon ne op (some x) o' b g q
      (beat secret token e code p eb a busy same s) h =
    let z = subst (IsHeld holder since horizon g) a h in rw (eb, s) (ground arith)
step-IsHeld k holder since horizon ne op (some x) o' b g q
      (closed state secret error token e code p eb a same s) h =
    let z = subst (IsHeld holder since horizon g) a h in
    absurd (
      no_release k holder op state secret error token (clock op) q.3 p
        (foreign_token holder token ne (subst (λ t. token_differs t token ≡ false) z.1 same)))
step-IsHeld k holder since horizon ne op (some x) o' b g q (accepted r code p key e a s) h =
    absurd (
      subst (IsHeld holder since horizon g) a
        (alive-IsHeld holder since horizon (clock op) g (some x) q.2 h))

IsHeld-none :
    (holder : String) (since horizon g : ℕ) (o : Option Entry)
    → IsHeld holder since horizon g o
    → g ≡ 0
IsHeld-none holder since horizon g none h = absurd h
IsHeld-none holder since horizon g (some e) h = h.4

-- If the row of a key is running under a non-empty token, was last updated at `since` or later and is
-- retained up to `horizon`, then no sequence of calls made in the lease of five minutes from `since`
-- and before `horizon`, without a finalize by the holder, is granted an execution of the key, and the
-- row stays running under the holder's token.
pub lease_excludes :
    (c : Crypto) (k holder : String) (since horizon : ℕ) (ops : List Op) (db : Table) (e : Entry)
    → holder ≢ ""
    → IsKeyed db
    → select k db ≡ some e
    → IsHeld holder since horizon 0 (some e)
    → All (InLease k holder since horizon) ops
    → (grant_count c k ops db ≡ 0) × IsHeld holder since horizon 0 (select k (run c ops db))
lease_excludes c k holder since horizon ops db e ne keyed found held q =
    let h =
      run_induction c k (IsHeld holder since horizon) (InLease k holder since horizon)
        (step-IsHeld k holder since horizon ne) ops db 0 keyed q
        (subst (IsHeld holder since horizon 0) (sym found) held) in
    let z = IsHeld-none holder since horizon _ _ h in
    (omega arith, subst (λ n. IsHeld holder since horizon n (select k (run c ops db))) z h)
