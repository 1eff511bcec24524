-- ===== src/Network/Replies.antt =====
-- The reply of every path, and the state that a message leaves (src/agent_delegation_network.py).
use agent_delegation_network.Crypto.{Crypto}
use agent_delegation_network.Json.{Fields, null, str}
use agent_delegation_network.Json.Keys.{Key, hash_key}
use agent_delegation_network.Network.Agent.{
  Agent, Handler, Node, Returned, find_handler, run_handler,
}
use agent_delegation_network.Network.Execution.{
  Environment, Finished, Outcome, answer_error, answer_failed, conclude, create_delegation_result,
  error_result, execute, finish, finish_success, granted, record_received, report_failure,
  signed_reply, start,
}
use agent_delegation_network.Network.Processing.{
  Admitted, admit, claim, claim_arguments, decide, dispatch, evaluate_wire, ledger_request,
  process_delegation_request, respond,
}
use agent_delegation_network.Policy.Decisions.{Reason}
use agent_delegation_network.Prelude.{
  Bool, Exception, Option, Result, String, arith, false, inl, inr, none, ok, raised, refl, some,
  true, ℕ, ◌≡◌, ◌⊎◌,
}
use agent_delegation_network.Protocol.Messages.{
  DelegationRequest, DelegationResult, DelegationStatus,
}
use agent_delegation_network.ReplayLedger.Entry.{State}
use agent_delegation_network.ReplayLedger.Execution.{
  Grant, begin_request_execution, finalize_request_execution, refused,
}
use agent_delegation_network.ReplayLedger.Table.{Table}
use agent_delegation_network.ReplayLedger.Traces.{run}
use agent_delegation_network.Tee.Receipt.{receipt_fingerprint}

-- The reply is signed by the agent and reports a result in its name; unless a handler was called, the
-- agent is as before.
pub record IsAnswered (c : Crypto) (env : Environment) (n : Node) (o : Outcome) : Type 0 where
  pub outcome : DelegationResult
  pub reported : o.reply ≡ signed_reply c env n.agent outcome
  pub in_own_name : outcome.from_agent_id ≡ str n.agent.signer.agent_id
  pub untouched : (o.executed ≡ true) ⊎ (o.node.agent ≡ n.agent)

module _ (c : Crypto) (env : Environment) where
  IsAnswered-error :
      (n : Node) (db : Table) (e : Exception)
      → IsAnswered c env n (answer_error c env (record { agent = n.agent; ledger = db }) false e)
  unfolding error_result
  IsAnswered-error n db e = record {
    outcome = error_result env.finished_at env.nonce n.agent.signer.agent_id e;
    reported = refl;
    in_own_name = refl;
    untouched = inr refl;
  }

  IsAnswered-failed :
      (n : Node) (db : Table) (r : DelegationRequest) (error : String)
      → IsAnswered c env n (answer_failed c env (record { agent = n.agent; ledger = db }) r error)
  unfolding create_delegation_result
  IsAnswered-failed n db r error = record {
    outcome =
        create_delegation_result env.finished_at env.nonce r n.agent.signer.agent_id
          DelegationStatus.failed null (str error);
    reported = refl;
    in_own_name = refl;
    untouched = inr refl;
  }

  report_failure_own :
      (r : DelegationRequest) (a : Agent) (key : String) (secret : Option String) (e : Exception)
      (db : Table) (x : DelegationResult) (refused : Option Exception)
      → (report_failure c env r a key secret e db).0 ≡ ok (x, refused)
      → x.from_agent_id ≡ str a.signer.agent_id
  unfolding report_failure create_delegation_result
  report_failure_own r a key secret e db x refused h = ground arith

  finish_own :
      (r : DelegationRequest) (a : Agent) (key : String) (secret : Option String)
      (v : Result Returned) (db : Table) (x : DelegationResult) (refused : Option Exception)
      → (finish c env r a key secret v db).0 ≡ ok (x, refused)
      → x.from_agent_id ≡ str a.signer.agent_id
  unfolding finish create_delegation_result
  finish_own r a key secret (raised e) db x refused h =
      report_failure_own r a key secret e db x refused h
  finish_own r a key secret (ok value) db x refused h =
      own
        (finalize_request_execution c key State.completed secret none (some env.execution_token)
          env.finished_at db)
        h
    where
      own :
          (g : Result Bool × Table)
          → (finish_success c env r a key secret value g).0 ≡ ok (x, refused)
          → x.from_agent_id ≡ str a.signer.agent_id
      own (ok b, t) p = ground arith
      own (raised e, t) p = report_failure_own r a key secret e t x refused p

  conclude-IsAnswered :
      (r : DelegationRequest) (k : Key) (n : Node) (g : Result Finished × Table)
      → ((x : DelegationResult) (refused : Option Exception)
          → g.0 ≡ ok (x, refused)
          → x.from_agent_id ≡ str n.agent.signer.agent_id)
      → IsAnswered c env n (conclude c env r k (record_received c env r k n.agent) g)
  unfolding error_result
  conclude-IsAnswered r k n (ok (x, some e), db) own = record {
    outcome = error_result env.finished_at env.nonce n.agent.signer.agent_id e;
    reported = refl;
    in_own_name = refl;
    untouched = inl refl;
  }
  conclude-IsAnswered r k n (ok (x, none), db) own = record {
    outcome = x;
    reported = refl;
    in_own_name = own x none refl;
    untouched = inl refl;
  }
  conclude-IsAnswered r k n (raised e, db) own = record {
    outcome = error_result env.finished_at env.nonce n.agent.signer.agent_id e;
    reported = refl;
    in_own_name = refl;
    untouched = inl refl;
  }

  granted-IsAnswered :
      (r : DelegationRequest) (h : Handler) (key : String) (secret : Option String) (n : Node)
      (g : Result Grant × Table)
      → IsAnswered c env n (granted c env r h key secret n.agent g)
  unfolding execute
  granted-IsAnswered r h key secret n (raised e, db) = IsAnswered-error n db e
  granted-IsAnswered r h key secret n (ok (false, why, token), db) = IsAnswered-failed n db r why
  granted-IsAnswered r h key secret n (ok (true, why, token), db) = keyed (hash_key r.delegation_id)
    where
      keyed :
          (m : Result Key)
          → IsAnswered c env n
              (start c env r h key secret (record { agent = n.agent; ledger = db }) m)
      keyed (raised e) = IsAnswered-error n db e
      keyed (ok k) =
          let a = record_received c env r k n.agent in
          conclude-IsAnswered r k n
            (finish c env r a key secret (run_handler a env.run_at h r.parameters)
              (run c env.meanwhile db))
            (finish_own r a key secret (run_handler a env.run_at h r.parameters)
              (run c env.meanwhile db))

  claim-IsAnswered :
      (r : DelegationRequest) (key : String) (h : Handler) (n : Node)
      (m : Result (Fields × ℕ × Option String))
      → IsAnswered c env n (claim c env r key h n m)
  unfolding claim
  claim-IsAnswered r key h n (raised e) = IsAnswered-error n n.ledger e
  claim-IsAnswered r key h n (ok (receipt, t, secret)) = granted-IsAnswered r h key secret n (
      begin_request_execution c
        (ledger_request key t n.agent.signer.agent_id r (receipt_fingerprint c receipt) secret)
        env.begun_at env.execution_token n.ledger)

  dispatch-IsAnswered :
      (r : DelegationRequest) (key : String) (n : Node) (m : Result (Option Handler))
      → IsAnswered c env n (dispatch c env r key n m)
  unfolding dispatch
  dispatch-IsAnswered r key n (raised e) = IsAnswered-error n n.ledger e
  dispatch-IsAnswered r key n (ok none) =
      IsAnswered-failed n n.ledger r "No handler available for action"
  dispatch-IsAnswered r key n (ok (some h)) = claim-IsAnswered r key h n (claim_arguments c env r)

  decide-IsAnswered :
      (r : DelegationRequest) (key : String) (n : Node) (m : Result (Bool × Reason))
      → IsAnswered c env n (decide c env r key n m)
  unfolding decide
  decide-IsAnswered r key n (raised e) = IsAnswered-error n n.ledger e
  decide-IsAnswered r key n (ok (false, why)) =
      IsAnswered-failed n n.ledger r "Not allowed by policy"
  decide-IsAnswered r key n (ok (true, why)) =
      dispatch-IsAnswered r key n (find_handler r.action n.agent)

  respond-IsAnswered : (n : Node) (m : Result Admitted) → IsAnswered c env n (respond c env n m)
  unfolding respond
  respond-IsAnswered n (raised e) = IsAnswered-error n n.ledger e
  respond-IsAnswered n (ok (r, key)) =
      decide-IsAnswered r key n
        (evaluate_wire n.agent.policy r.action r.from_agent_id n.agent.signer.agent_id)

  -- Every message is answered, whatever it holds, whatever raises, and also where the handler returns
  -- what `json.dumps` cannot print: the reply is a TASK_RESULT message that the agent signs for a
  -- result in its own name, and unless a handler was called the agent's tables, log, handlers and
  -- policy are as before.
  pub process_delegation_request-IsAnswered :
      (signed_request : Fields) (n : Node)
      → IsAnswered c env n (process_delegation_request c env signed_request n)
  unfolding process_delegation_request
  process_delegation_request-IsAnswered signed_request n =
      respond-IsAnswered n (admit c env n.agent.signer.agent_id signed_request)
