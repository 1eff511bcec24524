-- ===== src/ReplayLedger/Completion.antt =====
-- A completed request is not executed again, and what a late finalize does to it
-- (src/replay_ledger.py).
use agent_delegation_network.Crypto.{Crypto}
use agent_delegation_network.Prelude.{
  All, Bool, List, Option, String, arith, false, none, refl, some, subst, sym, true, ℕ, ◌+◌, ◌<◌,
  ◌≡◌, ◌≢◌, ◌≤◌,
}
use agent_delegation_network.ReplayLedger.Entry.{Entry, State, completed, final_failure}
use agent_delegation_network.ReplayLedger.Execution.{is_running, refusal}
use agent_delegation_network.ReplayLedger.Moves.{
  Move, Op, accepted, beat, clock, closed, finalize, gave_up, kept, lapsed, retried, started,
}
use agent_delegation_network.ReplayLedger.Table.{IsKeyed, Table, alive, select}
use agent_delegation_network.ReplayLedger.Traces.{grant_count, run, run_induction, tally}

abbrev pub NoFinalize : String → Op → Type 0
NoFinalize k (finalize key state secret error token now) = key ≢ k
NoFinalize k op = Unit

abbrev pub LeavesAlone : String → ℕ → Op → Type 0
LeavesAlone k horizon op = (clock op < horizon) × NoFinalize k op

-- Completed, or failed for good.
abbrev pub is_closed : State → Bool
is_closed completed = true
is_closed final_failure = true
is_closed _ = false

abbrev pub IsClosed : State → ℕ → ℕ → Option Entry → Type 0
IsClosed state horizon g none = ⊥
IsClosed state horizon g (some e) = (e.state ≡ state) × (horizon ≤ e.expires_at) × (g ≡ 0)

alive-IsClosed :
    (state : State) (horizon now g : ℕ) (o : Option Entry)
    → now < horizon
    → IsClosed state horizon g o
    → IsClosed state horizon g (alive now o)
alive-IsClosed state horizon now g none t h = h
alive-IsClosed state horizon now g (some e) t h = ground arith

closed_refuses :
    (state : State) (fresh : Bool) → is_closed state ≡ true → refusal state fresh ≢ none
unfolding refusal
closed_refuses state fresh s h = ground arith

closed_at_rest : (state : State) → is_closed state ≡ true → is_running state ≡ true → ⊥
closed_at_rest state s h = ground arith

no_finalize :
    (k : String) (op : Op) (state : State) (secret error token : Option String) (now : ℕ)
    → NoFinalize k op
    → op ≡ finalize k state secret error token now
    → ⊥
no_finalize k op state secret error token now h e = subst (NoFinalize k) e h refl

module _ (k : String) (state : State) (horizon : ℕ) (rest : is_closed state ≡ true) where
  step-IsClosed :
      (op : Op) (o o' : Option Entry) (b : Bool) (g : ℕ)
      → LeavesAlone k horizon op
      → Move k op o o' b
      → IsClosed state horizon g o
      → IsClosed state horizon (tally b + g) o'
  step-IsClosed op none o' b g q m h = absurd h
  step-IsClosed op (some x) o' b g q (kept e s) h = rw (e, s) (ground arith)
  step-IsClosed op (some x) o' b g q (lapsed e s) h =
      rw (e, s)
        (subst (λ n. IsClosed state horizon n (alive (clock op) (some x))) (omega arith)
          (alive-IsClosed state horizon (clock op) g (some x) q.0 h))
  step-IsClosed op (some x) o' b g q (started r token code p key e a s) h = absurd (
      subst (IsClosed state horizon g) a (alive-IsClosed state horizon (clock op) g (some x) q.0 h))
  step-IsClosed op (some x) o' b g q (gave_up r token e code p key eb a due spent s) h =
      let z =
        subst (IsClosed state horizon g) a
          (alive-IsClosed state horizon (clock op) g (some x) q.0 h) in
      absurd (closed_refuses e.state _ (rw z.0 rest) due)
  step-IsClosed op (some x) o' b g q (retried r token e code p key eb a due left s) h =
      let z =
        subst (IsClosed state horizon g) a
          (alive-IsClosed state horizon (clock op) g (some x) q.0 h) in
      absurd (closed_refuses e.state _ (rw z.0 rest) due)
  step-IsClosed op (some x) o' b g q (beat secret token e code p eb a busy same s) h =
      let z = subst (IsClosed state horizon g) a h in
      absurd (closed_at_rest e.state (rw z.0 rest) busy)
  step-IsClosed op (some x) o' b g q (closed st secret error token e code p eb a same s) h =
      absurd (no_finalize k op st secret error token (clock op) q.1 p)
  step-IsClosed op (some x) o' b g q (accepted r code p key e a s) h = absurd (
      subst (IsClosed state horizon g) a (alive-IsClosed state horizon (clock op) g (some x) q.0 h))

IsClosed-none :
    (state : State) (horizon g : ℕ) (o : Option Entry) → IsClosed state horizon g o → g ≡ 0
IsClosed-none state horizon g none h = absurd h
IsClosed-none state horizon g (some e) h = h.2

-- If the row of a key is completed or has failed for good and is retained up to `horizon`, then no
-- sequence of calls made before `horizon` without a finalize of the key is granted an execution of
-- it, and the row keeps its state.
pub IsClosed-not_repeated :
    (c : Crypto) (k : String) (horizon : ℕ) (ops : List Op) (db : Table) (e : Entry)
    → is_closed e.state ≡ true
    → horizon ≤ e.expires_at
    → IsKeyed db
    → select k db ≡ some e
    → All (LeavesAlone k horizon) ops
    → (grant_count c k ops db ≡ 0) × IsClosed e.state horizon 0 (select k (run c ops db))
IsClosed-not_repeated c k horizon ops db e rest kept_until keyed found q =
    let h =
      run_induction c k (IsClosed e.state horizon) (LeavesAlone k horizon)
        (step-IsClosed k e.state horizon rest) ops db 0 keyed q
        (subst (IsClosed e.state horizon 0) (sym found) (refl, kept_until, refl)) in
    let z = IsClosed-none e.state horizon _ _ h in
    (omega arith, subst (λ n. IsClosed e.state horizon n (select k (run c ops db))) z h)
