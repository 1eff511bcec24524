-- ===== src/Network/ExecutionCalls.antt =====
-- The calls of the replay ledger from its grant of an execution to the reply
-- (src/agent_delegation_network.py).
use agent_delegation_network.Crypto.{Crypto}
use agent_delegation_network.Json.{Fields}
use agent_delegation_network.Json.Keys.{Key, hash_key}
use agent_delegation_network.Network.Agent.{Agent, Handler, Node, run_handler}
use agent_delegation_network.Network.Execution.{
  Environment, execute, finish, granted, record_received, replay_expires_at, start,
}
use agent_delegation_network.Network.LedgerCalls.{
  Calls, append-Calls, conclude-ledger, finish-Calls, no-Calls, these-Calls,
}
use agent_delegation_network.Network.Processing.{claim_arguments}
use agent_delegation_network.Prelude.{
  >>=-eq-ok, All, Bool, Option, Result, String, [], ap, arith, false, ok, raised, refl, subst, sym,
  true, ℕ, ◌&&◌, ◌<◌, ◌==◌, ◌>>=◌, ◌∙◌, ◌∷◌, ◌≡◌, ◌≤◌,
}
use agent_delegation_network.Protocol.Messages.{DelegationRequest}
use agent_delegation_network.Protocol.Validation.{receipt_or_empty}
use agent_delegation_network.ReplayLedger.Attempts.{Retains}
use agent_delegation_network.ReplayLedger.Execution.{Grant, Request, begin_request_execution}
use agent_delegation_network.ReplayLedger.Moves.{Op, apply, grants, is_granted}
use agent_delegation_network.ReplayLedger.Table.{Table}
use agent_delegation_network.ReplayLedger.Traces.{grant_count, run, tally}

tally_le : (a b : Bool) → tally (a && b) ≤ tally (a && true)
tally_le true true = omega arith
tally_le true false = omega arith
tally_le false b = omega arith

fewer :
    (c : Crypto) (k : String) (horizon : ℕ) {db db' : Table} {g g' : ℕ}
    → g' ≤ g
    → Calls c k horizon db db' g
    → Calls c k horizon db db' g'
fewer c k horizon t x = record {
  ops = x.ops;
  timely = x.timely;
  reached = x.reached;
  granted = omega (arith, t, x.granted);
}

module _ (c : Crypto) (k : String) (horizon : ℕ) where
  pub unexecuted : (b : Bool) {db : Table} → Calls c k horizon db db (tally (b && false))
  unexecuted true {db = db} = no-Calls c k horizon db
  unexecuted false {db = db} = no-Calls c k horizon db

  module _ (env : Environment) (ended : env.finished_at < horizon)
      (others : All (Retains k horizon) env.meanwhile) (r : DelegationRequest) (h : Handler)
      (key : String) (secret : Option String) where
    start-Calls :
        (n : Node) (m : Result Key)
        → Calls c k horizon n.ledger (start c env r h key secret n m).node.ledger 0
    unfolding execute
    start-Calls n (raised e) = no-Calls c k horizon n.ledger
    start-Calls n (ok kk) =
        let a = record_received c env r kk n.agent in
        let db = run c env.meanwhile n.ledger in
        let f = finish c env r a key secret (run_handler a env.run_at h r.parameters) db in
        subst (λ z. Calls c k horizon n.ledger z 0)
          (sym (conclude-ledger c env k horizon ended r kk a f))
          (append-Calls c k horizon (these-Calls c k horizon env.meanwhile n.ledger others) (
            finish-Calls c env k horizon ended r a key secret
              (run_handler a env.run_at h r.parameters) db))

    pub granted-Calls :
        (a : Agent) (db : Table) (g : Result Grant × Table)
        → Calls c k horizon db g.1 (tally ((key == k) && is_granted g.0))
        → Calls c k horizon db
            (granted c env r h key secret a g).node.ledger
            (tally ((key == k) && (granted c env r h key secret a g).executed))
    granted-Calls a db (raised e, db') x = x
    granted-Calls a db (ok (false, why, token), db') x = x
    granted-Calls a db (ok (true, why, token), db') x =
        let n : Node = record { agent = a; ledger = db' } in
        let o = start c env r h key secret n (hash_key r.delegation_id) in
        fewer c k horizon (omega (arith, tally_le (key == k) o.executed))
          (append-Calls c k horizon x (start-Calls n (hash_key r.delegation_id)))

    pub begin-Calls :
        (q : Request) (db : Table)
        → env.begun_at < horizon
        → q.replay_key ≡ key
        → (key ≡ k → horizon ≤ q.replay_expires_at)
        → Calls c k horizon db (begin_request_execution c q env.begun_at env.execution_token db).1 (
            tally (
              (key == k)
              && is_granted (begin_request_execution c q env.begun_at env.execution_token db).0))
    unfolding run apply grant_count grants
    begin-Calls q db begun same retained = record {
      ops = Op.begin q env.begun_at env.execution_token ∷ [];
      timely = ((begun, λ e. retained (sym same ∙ e)), tt);
      reached = refl;
      granted = rw same (omega arith);
    }

pub claimed_expiry :
    (c : Crypto) (env : Environment) (r : DelegationRequest) (receipt : Fields) (t : ℕ)
    (secret : Option String)
    → claim_arguments c env r ≡ ok (receipt, t, secret)
    → replay_expires_at c env.begun_at r ≡ ok t
unfolding claim_arguments
claimed_expiry c env r receipt t secret p =
    let with_receipt = λ (s : Option String).
      λ (u : ℕ). receipt_or_empty r.tee_authorization >>= λ f. ok (f, u, s) in
    let (s, p₁, h₁) =
      >>=-eq-ok env.integrity_key (λ s. replay_expires_at c env.begun_at r >>= with_receipt s) p in
    let (u, p₂, h₂) = >>=-eq-ok (replay_expires_at c env.begun_at r) (with_receipt s) h₁ in
    let (f, p₃, h₃) = >>=-eq-ok (receipt_or_empty r.tee_authorization) (λ f. ok (f, u, s)) h₂ in
    let same : u ≡ t = ground arith in p₂ ∙ ap ok same
