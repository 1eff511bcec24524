-- ===== src/Network/LedgerCalls.antt =====
-- The calls of the replay ledger that processing a message makes (src/agent_delegation_network.py).
use agent_delegation_network.Crypto.{Crypto}
use agent_delegation_network.Json.{Fields}
use agent_delegation_network.Json.Keys.{Key}
use agent_delegation_network.Network.Agent.{Agent, Returned}
use agent_delegation_network.Network.Execution.{
  Environment, Finished, conclude, finish, finish_success, message_of, replay_expires_at,
  report_failure,
}
use agent_delegation_network.Network.Processing.{admit}
use agent_delegation_network.Prelude.{
  All, Bool, Exception, List, Option, Result, String, [], ap, arith, none, ok, raised, refl, some,
  subst, sym, ℕ, ◌++◌, ◌+◌, ◌<◌, ◌∙◌, ◌∷◌, ◌≡◌, ◌≤◌,
}
use agent_delegation_network.Protocol.Messages.{DelegationRequest}
use agent_delegation_network.ReplayLedger.Attempts.{Retains}
use agent_delegation_network.ReplayLedger.Entry.{State, retryable_failure}
use agent_delegation_network.ReplayLedger.Execution.{finalize_request_execution}
use agent_delegation_network.ReplayLedger.Moves.{Op, apply, finalize}
use agent_delegation_network.ReplayLedger.Table.{Table}
use agent_delegation_network.ReplayLedger.Traces.{grant_count, run}

run-append :
    (c : Crypto) (xs ys : List Op) (db : Table) → run c (xs ++ ys) db ≡ run c ys (run c xs db)
unfolding run
run-append c [] ys db = refl
run-append c (x ∷ xs) ys db = run-append c xs ys (apply c x db)

grant_count-append :
    (c : Crypto) (k : String) (xs ys : List Op) (db : Table)
    → grant_count c k (xs ++ ys) db ≡ grant_count c k xs db + grant_count c k ys (run c xs db)
unfolding grant_count run
grant_count-append c k [] ys db = omega arith
grant_count-append c k (x ∷ xs) ys db = omega (arith, grant_count-append c k xs ys (apply c x db))

All-append : (P : Op → Type 0) (xs ys : List Op) → All P xs → All P ys → All P (xs ++ ys)
All-append P [] ys h h' = h'
All-append P (x ∷ xs) ys h h' = (h.0, All-append P xs ys h.1 h')

-- Calls in the window of a key that lead from one table to another, and that are granted at least
-- `g` executions of the key.
pub record Calls (c : Crypto) (k : String) (horizon : ℕ) (db db' : Table) (g : ℕ) : Type 0 where
  pub ops : List Op
  pub timely : All (Retains k horizon) ops
  pub reached : db' ≡ run c ops db
  pub granted : g ≤ grant_count c k ops db

pub no-Calls : (c : Crypto) (k : String) (horizon : ℕ) (db : Table) → Calls c k horizon db db 0
unfolding run
no-Calls c k horizon db = record { ops = []; timely = tt; reached = refl; granted = omega arith }

pub these-Calls :
    (c : Crypto) (k : String) (horizon : ℕ) (ops : List Op) (db : Table)
    → All (Retains k horizon) ops
    → Calls c k horizon db (run c ops db) 0
these-Calls c k horizon ops db h = record {
  ops = ops;
  timely = h;
  reached = refl;
  granted = omega arith;
}

pub append-Calls :
    (c : Crypto) (k : String) (horizon : ℕ) {db db' db'' : Table} {g g' : ℕ}
    → Calls c k horizon db db' g
    → Calls c k horizon db' db'' g'
    → Calls c k horizon db db'' (g + g')
append-Calls c k horizon {db = db} {db' = db'} {db'' = db''} {g = g} {g' = g'} x y =
    let more : g' ≤ grant_count c k y.ops (run c x.ops db) =
      subst (λ z. g' ≤ grant_count c k y.ops z) x.reached y.granted in
    record {
      ops = x.ops ++ y.ops;
      timely = All-append (Retains k horizon) x.ops y.ops x.timely y.timely;
      reached = y.reached ∙ ap (run c y.ops) x.reached ∙ sym (run-append c x.ops y.ops db);
      granted = omega (arith, grant_count-append c k x.ops y.ops db, x.granted, more);
    }

-- The calls around a message are made before `horizon`, and the message's own request for the key is
-- retained up to it.
pub record InWindow (c : Crypto) (k : String) (horizon : ℕ) (env : Environment)
    (signed_request : Fields) : Type 0 where
  pub begun : env.begun_at < horizon
  pub ended : env.finished_at < horizon
  pub others : All (Retains k horizon) env.meanwhile
  pub retained :
      (own_id : String) (r : DelegationRequest) (expires_at : ℕ)
      → admit c env own_id signed_request ≡ ok (r, k)
      → replay_expires_at c env.begun_at r ≡ ok expires_at
      → horizon ≤ expires_at

module _ (c : Crypto) (env : Environment) (k : String) (horizon : ℕ)
    (ended : env.finished_at < horizon) where
  report_failure-Calls :
      (r : DelegationRequest) (a : Agent) (key : String) (secret : Option String) (e : Exception)
      (db : Table)
      → Calls c k horizon db (report_failure c env r a key secret e db).1 0
  unfolding report_failure apply run
  report_failure-Calls r a key secret e db =
      these-Calls c k horizon
        (finalize key retryable_failure secret (some (message_of e)) (some env.execution_token)
            env.finished_at
          ∷ [])
        db (ended, tt)

  finish_success-Calls :
      (r : DelegationRequest) (a : Agent) (key : String) (secret : Option String) (value : Returned)
      (f : Result Bool × Table)
      → Calls c k horizon f.1 (finish_success c env r a key secret value f).1 0
  finish_success-Calls r a key secret value (ok closed_row, db) = no-Calls c k horizon db
  finish_success-Calls r a key secret value (raised e, db) =
      report_failure-Calls r a key secret e db

  pub finish-Calls :
      (r : DelegationRequest) (a : Agent) (key : String) (secret : Option String)
      (m : Result Returned) (db : Table)
      → Calls c k horizon db (finish c env r a key secret m db).1 0
  unfolding finish apply run
  finish-Calls r a key secret (ok value) db =
      append-Calls c k horizon
        (these-Calls c k horizon
          (finalize key State.completed secret none (some env.execution_token) env.finished_at ∷ [])
          db (ended, tt))
        (finish_success-Calls r a key secret value (
          finalize_request_execution c key State.completed secret none (some env.execution_token)
            env.finished_at db))
  finish-Calls r a key secret (raised e) db = report_failure-Calls r a key secret e db

  pub conclude-ledger :
      (r : DelegationRequest) (kk : Key) (a : Agent) (f : Result Finished × Table)
      → (conclude c env r kk a f).node.ledger ≡ f.1
  conclude-ledger r kk a (ok (result, some e), db) = refl
  conclude-ledger r kk a (ok (result, none), db) = refl
  conclude-ledger r kk a (raised e, db) = refl
