-- ===== src/Verifier/Acceptance.antt =====
-- The two changes of state of `verify_worker_result`: the nonce cache and the replay ledger
-- (src/result_verifier.py).
use agent_delegation_network.Crypto.{Crypto}
use agent_delegation_network.Json.{Fields, get}
use agent_delegation_network.Prelude.{
  All, Bool, List, Option, Result, String, ap, arith, false, ok, raised, refl, subst, true, ℕ, ◌+◌,
  ◌<◌, ◌∙◌, ◌≡◌, ◌≢◌,
}
use agent_delegation_network.ReplayLedger.Consumption.{consume_result_replay}
use agent_delegation_network.ReplayLedger.Entry.{result_replay_ttl}
use agent_delegation_network.ReplayLedger.Moves.{Op}
use agent_delegation_network.ReplayLedger.Results.{KeepsResult, is_accepted, result_consumed_once}
use agent_delegation_network.ReplayLedger.Table.{IsKeyed, Table}
use agent_delegation_network.ReplayLedger.Traces.{run}
use agent_delegation_network.Verifier.Guarantees.{
  IsGenuine, check_receipt_ok, check_result-IsGenuine, check_result_read,
}
use agent_delegation_network.Verifier.Nonces.{Cache, consume_result_nonce}
use agent_delegation_network.Verifier.Verification.{
  Expectation, after_nonce, check_result, consume_replay, replay_of, replay_verdict,
  result_replay_key, settle_result, verify_worker_result,
}

-- What the nonce cache and the ledger said of an accepted result, and the ledger afterwards.
pub record IsFresh (c : Crypto) (mock : Bool) (mono now : ℕ) (secret : Result (Option String))
    (x : Expectation) (proof rd : Fields) (q : Cache) (db : Table) : Type 0 where
  pub receipt : Fields
  pub checked : check_result c mock now x proof ≡ ok (rd, receipt)
  pub nonce_fresh : (consume_result_nonce mono (get "nonce" rd) q).0 ≡ ok tt
  pub key : Option String
  pub key_read : secret ≡ ok key
  pub key_fresh :
      is_accepted (consume_result_replay c (replay_of c x proof rd receipt key) now db).0 ≡ true
  pub written :
      (verify_worker_result c mock mono now secret x proof q db).2
      ≡ (consume_result_replay c (replay_of c x proof rd receipt key) now db).1

module _ (c : Crypto) (x : Expectation) (proof : Fields) where
  replay_verdict_ok :
      (rd d : Fields) (m : Result (Bool × String))
      → replay_verdict c rd m ≡ ok d
      → (is_accepted m ≡ true) × (rd ≡ d)
  replay_verdict_ok rd d (raised e) h = absurd (cc)
  replay_verdict_ok rd d (ok (fresh, reason)) h = ground arith

  after_nonce_ok :
      (now : ℕ) (secret : Result (Option String)) (db : Table) (rd d receipt : Fields)
      (n : Result (Unit {0}) × Cache)
      → (after_nonce c now secret x proof (d, receipt) db n).0 ≡ ok rd
      → (d ≡ rd)
        × (n.0 ≡ ok tt)
        × ((key : Option String) × (secret ≡ ok key)
            × (is_accepted (consume_result_replay c (replay_of c x proof d receipt key) now db).0
                ≡ true)
            × ((after_nonce c now secret x proof (d, receipt) db n).2
                ≡ (consume_result_replay c (replay_of c x proof d receipt key) now db).1))
  unfolding consume_replay
  after_nonce_ok now secret db rd d receipt (raised e, q) h = absurd (cc)
  after_nonce_ok now (raised e) db rd d receipt (ok u, q) h = absurd (cc)
  after_nonce_ok now (ok key) db rd d receipt (ok tt, q) h =
      let (accepted_now, same) =
        replay_verdict_ok d rd
          (consume_result_replay c (replay_of c x proof d receipt key) now db).0 h in
      (same, refl, (key, refl, accepted_now, refl))

  settled_IsFresh :
      (mock : Bool) (mono now : ℕ) (secret : Result (Option String)) (q : Cache) (db : Table)
      (rd : Fields) (m : Result (Fields × Fields))
      → check_result c mock now x proof ≡ m
      → (settle_result c mono now secret x proof q db m).0 ≡ ok rd
      → (verify_worker_result c mock mono now secret x proof q db).2
        ≡ (settle_result c mono now secret x proof q db m).2
      → IsFresh c mock mono now secret x proof rd q db
  settled_IsFresh mock mono now secret q db rd (raised e) p h w = absurd (cc)
  settled_IsFresh mock mono now secret q db rd (ok (d, receipt)) p h w =
      let (same, fresh, (key, read, accepted_now, written)) =
        after_nonce_ok now secret db rd d receipt (consume_result_nonce mono (get "nonce" d) q) h in
      subst (λ z. IsFresh c mock mono now secret x proof z q db) same
        (record {
          receipt = receipt;
          checked = p;
          nonce_fresh = fresh;
          key = key;
          key_read = read;
          key_fresh = accepted_now;
          written = w ∙ written;
        })

  verify_worker_result-IsFresh :
      (mock : Bool) (mono now : ℕ) (secret : Result (Option String)) (q : Cache) (db : Table)
      (rd : Fields)
      → (verify_worker_result c mock mono now secret x proof q db).0 ≡ ok rd
      → IsFresh c mock mono now secret x proof rd q db
  unfolding verify_worker_result
  verify_worker_result-IsFresh mock mono now secret q db rd h =
      settled_IsFresh mock mono now secret q db rd (check_result c mock now x proof) refl h refl

  -- Outside mock mode a worker's result is accepted only if it is genuine: the worker signed it for
  -- this coordinator and this delegation, its digest covers its data, and the receipt in it is the
  -- one that the coordinator holds and authorizes the work. Its nonce and its replay key had not been
  -- consumed.
  pub verify_worker_result_sound :
      (mono now : ℕ) (secret : Result (Option String)) (q : Cache) (db : Table) (rd : Fields)
      → (verify_worker_result c false mono now secret x proof q db).0 ≡ ok rd
      → IsGenuine c now x proof rd × IsFresh c false mono now secret x proof rd q db
  verify_worker_result_sound mono now secret q db rd h =
      let f = verify_worker_result-IsFresh false mono now secret q db rd h in
      (check_result-IsGenuine c now x proof rd f.receipt f.checked, f)

  -- The data and the receipt of a message do not depend on the clock.
  same_result :
      (mock : Bool) (now later : ℕ) (rd d receipt r : Fields)
      → check_result c mock now x proof ≡ ok (rd, receipt)
      → check_result c mock later x proof ≡ ok (d, r)
      → (d ≡ rd) × (r ≡ receipt)
  same_result mock now later rd d receipt r h k =
      let (p₁, read, p₂, p₃) = check_result_read c mock now x proof rd receipt h in
      let (q₁, read', q₂, q₃) = check_result_read c mock later x proof d r k in
      let e : d ≡ rd = ground arith in
      let (held, z, _) = check_receipt_ok c mock now x proof rd receipt p₃ in
      let (held', z', _) = check_receipt_ok c mock later x proof d r q₃ in (e, ground arith)

  -- A result that was accepted is not accepted again within fifteen minutes: not after any ledger
  -- calls that begin no execution under its replay key, not with another nonce cache (as after a
  -- restart), and not under another secret.
  pub result_verified_once :
      (mock : Bool) (mono now : ℕ) (secret : Result (Option String)) (q : Cache) (db : Table)
      (rd receipt : Fields) (ops : List Op) (mono' later : ℕ) (secret' : Result (Option String))
      (q' : Cache) (d : Fields)
      → IsKeyed db
      → check_result c mock now x proof ≡ ok (rd, receipt)
      → (verify_worker_result c mock mono now secret x proof q db).0 ≡ ok rd
      → All (KeepsResult (result_replay_key c x rd receipt) (now + result_replay_ttl)) ops
      → later < now + result_replay_ttl
      → (verify_worker_result c mock mono' later secret' x proof q'
          (run c ops (verify_worker_result c mock mono now secret x proof q db).2)).0
        ≢ ok d
  result_verified_once mock mono now secret q db rd receipt ops mono' later secret' q' d keyed seen
        h kept_all t again =
      let f = verify_worker_result-IsFresh mock mono now secret q db rd h in
      let after = run c ops (verify_worker_result c mock mono now secret x proof q db).2 in
      let g = verify_worker_result-IsFresh mock mono' later secret' q' after d again in
      let (e₁, r₁) = same_result mock now now rd rd f.receipt receipt f.checked seen in
      let (e₂, r₂) = same_result mock now later rd d receipt g.receipt seen g.checked in
      let r = replay_of c x proof rd f.receipt f.key in
      let s = replay_of c x proof d g.receipt g.key in
      let kept' : All (KeepsResult (result_replay_key c x rd f.receipt) (now + result_replay_ttl))
          ops =
        subst (λ z. All (KeepsResult (result_replay_key c x rd z) (now + result_replay_ttl)) ops) r₁
          kept_all in
      let keys_agree : s.replay_key ≡ r.replay_key =
        ap (λ z. result_replay_key c x z g.receipt) e₂ ∙ ap (result_replay_key c x rd) (r₂ ∙ r₁) in
      let denied =
        result_consumed_once c r s now later ops db keyed f.key_fresh kept' keys_agree t in
      let at : after ≡ run c ops (consume_result_replay c r now db).1 = ap (run c ops) f.written in
      let won =
        subst (λ z. is_accepted (consume_result_replay c s later z).0 ≡ true) at g.key_fresh in
      absurd (cc (denied, won))
