-- ===== src/Tests/Ledger.antt =====
-- The replay ledger.
use agent_delegation_network.Crypto.{Crypto}
use agent_delegation_network.Json.{Json, get, obj}
use agent_delegation_network.Prelude.{
  Bool, Exception, List, Option, String, [], ap, arith, eq_iff, false, if◌then◌else◌, none, ok,
  raised, refl, runtime_error, some, true, ◌==◌, ◌∷◌, ◌≡◌, ◌≢◌, ◌≤◌, ◌⊎◌,
}
use agent_delegation_network.ReplayLedger.Answers.{tampered_row_stops}
use agent_delegation_network.ReplayLedger.Attempts.{at_most_two_executions}
use agent_delegation_network.ReplayLedger.Completion.{IsClosed, IsClosed-not_repeated}
use agent_delegation_network.ReplayLedger.Consumption.{consume_result_replay}
use agent_delegation_network.ReplayLedger.Entry.{
  Entry, State, compute_integrity_mac, retryable_failure, seconds, stable_record_payload,
  verify_integrity,
}
use agent_delegation_network.ReplayLedger.Execution.{
  begin_request_execution, final_error_of, final_state_of, finalize_request_execution,
  heartbeat_request_execution, refusal, write_record,
}
use agent_delegation_network.ReplayLedger.Granting.{IsFree, begin_request_execution_by_row}
use agent_delegation_network.ReplayLedger.Integrity.{AllSealed, IsUsable}
use agent_delegation_network.ReplayLedger.Lease.{IsHeld, lease_excludes}
use agent_delegation_network.ReplayLedger.Moves.{
  Move, Op, apply, begin, finalize, grants, heartbeat,
}
use agent_delegation_network.ReplayLedger.Reopening.{completed_reopens}
use agent_delegation_network.ReplayLedger.Results.{is_accepted, result_consumed_once}
use agent_delegation_network.ReplayLedger.SealedCalls.{Answers, call_secret, sealed_calls_answer}
use agent_delegation_network.ReplayLedger.Steps.{apply-Move}
use agent_delegation_network.ReplayLedger.Table.{alive, delete_expired, select, upsert}
use agent_delegation_network.ReplayLedger.Tampering.{edited_row_fails}
use agent_delegation_network.ReplayLedger.Traces.{grant_count, run}
use agent_delegation_network.Tests.Samples.{
  completed_entry, sample-IsUsable, sample_crypto, sample_entry, sample_replay, sample_request,
}
use agent_delegation_network.Verifier.Verification.{text_of}

abbrev attempts : List Op
attempts =
    begin sample_request (seconds 10) "a"
    ∷ begin sample_request (seconds 20) "b"
    ∷ finalize "k" retryable_failure (some "00") none (some "a") (seconds 30)
    ∷ begin sample_request (seconds 40) "b"
    ∷ finalize "k" retryable_failure (some "00") none (some "b") (seconds 50)
    ∷ begin sample_request (seconds 60) "c"
    ∷ []

-- The second begin meets the lease, the fourth call is the retry, and the last finds a final failure.
two_of_four : grant_count sample_crypto "k" attempts [] ≡ 2
unfolding grant_count grants apply begin_request_execution heartbeat_request_execution
    finalize_request_execution select upsert delete_expired write_record verify_integrity
    compute_integrity_mac refusal final_state_of final_error_of
two_of_four = refl

at_most_two_executions_example : grant_count sample_crypto "k" attempts [] ≤ 2
at_most_two_executions_example =
    at_most_two_executions sample_crypto "k" (seconds 100) attempts [] tt (unfold select in refl) (
      (omega arith, λ e. omega arith),
      (
        (omega arith, λ e. omega arith),
        (
          omega arith,
          ((omega arith, λ e. omega arith), (omega arith, ((omega arith, λ e. omega arith), tt))),
        ),
      ),
    )

token_set : ◌≢◌ {A = String} "token" ""
token_set = ground (arith, eq_iff "token" "")

abbrev rivals : List Op
rivals =
    begin sample_request (seconds 20) "b"
    ∷ heartbeat "k" (some "00") (some "token") (seconds 70)
    ∷ finalize "k" State.completed (some "00") none (some "b") (seconds 80)
    ∷ begin sample_request (seconds 300) "c"
    ∷ []

other_token : ◌≢◌ {A = Option String} (some "b") (some "token")
other_token e = absurd (ground (arith, eq_iff "b" "token"))

lease_excludes_example :
    (grant_count sample_crypto "k" rivals (sample_entry ∷ []) ≡ 0)
    × IsHeld "token"
        (seconds 10)
        (seconds 3600)
        0
        (select "k" (run sample_crypto rivals (sample_entry ∷ [])))
lease_excludes_example =
    lease_excludes sample_crypto "k" "token" (seconds 10) (seconds 3600) rivals (sample_entry ∷ [])
      sample_entry token_set (unfold select in (refl, tt)) (unfold select in refl)
      (refl, refl, omega arith, omega arith, refl)
      (
        (omega arith, omega arith, omega arith, tt),
        (
          (omega arith, omega arith, omega arith, tt),
          (
            (omega arith, omega arith, omega arith, λ e. other_token),
            ((omega arith, omega arith, omega arith, tt), tt),
          ),
        ),
      )

IsClosed-not_repeated_example :
    (grant_count sample_crypto "k"
        (begin sample_request (seconds 30) "b" ∷ [])
        (completed_entry ∷ [])
      ≡ 0)
    × IsClosed State.completed (seconds 3600) 0 (
        select "k"
          (run sample_crypto (begin sample_request (seconds 30) "b" ∷ []) (completed_entry ∷ [])))
IsClosed-not_repeated_example =
    IsClosed-not_repeated sample_crypto "k" (seconds 3600)
      (begin sample_request (seconds 30) "b" ∷ []) (completed_entry ∷ []) completed_entry refl
      (omega arith) (unfold select in (refl, tt)) (unfold select in refl) ((omega arith, tt), tt)

result_consumed_once_example :
    is_accepted
      (consume_result_replay sample_crypto sample_replay (seconds 50) (
        run sample_crypto
          (begin sample_request (seconds 30) "b" ∷ [])
          (consume_result_replay sample_crypto sample_replay (seconds 20) []).1)).0
    ≡ false
result_consumed_once_example =
    result_consumed_once sample_crypto sample_replay sample_replay (seconds 20) (seconds 50)
      (begin sample_request (seconds 30) "b" ∷ []) [] tt
      (unfold consume_result_replay select delete_expired upsert write_record
          compute_integrity_mac in
        refl)
      ((omega arith, λ e. ground (arith, eq_iff "k" "r")), tt) refl (omega arith)

abbrev forged_entry : Entry
forged_entry = record sample_entry { attempt_count = 0; integrity_mac = some "other" }

abbrev integrity_failure : Exception
integrity_failure = runtime_error "Replay ledger integrity check failed"

key_set : ◌≢◌ {A = String} "k" ""
key_set = ground (arith, eq_iff "k" "")

tampered_row_stops_example :
    (begin_request_execution sample_crypto sample_request (seconds 400) "b" (forged_entry ∷ [])
      ≡ (raised integrity_failure, forged_entry ∷ []))
    × (heartbeat_request_execution sample_crypto "k"
          (some "00")
          (some "token")
          (seconds 400)
          (forged_entry ∷ [])
        ≡ (raised integrity_failure, forged_entry ∷ []))
    × (finalize_request_execution sample_crypto "k" State.completed
          (some "00")
          none
          (some "token")
          (seconds 400)
          (forged_entry ∷ [])
        ≡ (raised integrity_failure, forged_entry ∷ []))
    × (consume_result_replay sample_crypto
          (record sample_replay { replay_key = "k" })
          (seconds 400)
          (forged_entry ∷ [])
        ≡ (raised integrity_failure, forged_entry ∷ []))
tampered_row_stops_example =
    tampered_row_stops sample_crypto "k" (forged_entry ∷ []) forged_entry integrity_failure
      sample_request (record sample_replay { replay_key = "k" }) State.completed (some "00") none
      (some "token") "b" (seconds 400) key_set refl refl refl refl (unfold select in (refl, tt))
      (unfold select in refl) (omega arith) refl
      (unfold verify_integrity compute_integrity_mac in refl)

completed_reopens_example :
    (begin_request_execution sample_crypto sample_request
      (seconds 40)
      "b"
      (finalize_request_execution sample_crypto "k" retryable_failure
        (some "00")
        none
        (some "stale")
        (seconds 30)
        (completed_entry ∷ [])).1).0
    ≡ ok (true, "", some "b")
completed_reopens_example =
    completed_reopens sample_crypto "k" (some "00") sample-IsUsable sample_request
      (completed_entry ∷ []) completed_entry none (some "stale") (seconds 30) (seconds 40) "b"
      key_set (unfold select in (refl, tt)) (unfold select in refl)
      (unfold verify_integrity compute_integrity_mac in refl) refl refl (omega arith) refl refl
      (omega arith)

apply-Move_example :
    Move "k"
      (begin sample_request (seconds 400) "b")
      (select "k" (sample_entry ∷ []))
      (select "k"
        (apply sample_crypto (begin sample_request (seconds 400) "b") (sample_entry ∷ [])))
      (grants sample_crypto "k" (begin sample_request (seconds 400) "b") (sample_entry ∷ []))
apply-Move_example =
    apply-Move sample_crypto "k" (begin sample_request (seconds 400) "b") (sample_entry ∷ [])
      (unfold select in (refl, tt))

begin_request_execution_by_row_example :
    let row = alive (seconds 400) (select "k" (sample_entry ∷ [])) in
    (((begin_request_execution sample_crypto sample_request (seconds 400) "b" (sample_entry ∷ [])).0
        ≡ ok (true, "", some "b"))
      × IsFree (seconds 400) row)
    ⊎ ((reason : String) × ((begin_request_execution sample_crypto sample_request
            (seconds 400)
            "b"
            (sample_entry ∷ [])).0
          ≡ ok (false, reason, none))
        × ¬ IsFree (seconds 400) row)
begin_request_execution_by_row_example =
    begin_request_execution_by_row sample_crypto sample_request (seconds 400) "b" sample-IsUsable
      (sample_entry ∷ []) key_set (unfold select in (refl, tt))
      (unfold select verify_integrity compute_integrity_mac in refl)

-- Codes that tell a completed row from the others.
abbrev state_code : String → String
state_code s = if s == "COMPLETED" then "a" else "b"

abbrev printed_state : Json → String
printed_state (obj fs) = text_of (get "state" fs)
printed_state _ = ""

abbrev state_crypto : Crypto
state_crypto = record sample_crypto {
  dumps = printed_state;
  hmac_sha256 = λ secret message. some (state_code message);
}

state_crypto-IsUsable : IsUsable state_crypto (some "00")
state_crypto-IsUsable message = (state_code message, refl, nonempty (message == "COMPLETED"))
  where
    nonempty : (b : Bool) → ◌≢◌ {A = String} (if b then "a" else "b") ""
    nonempty true e = absurd (ground (arith, eq_iff "a" ""))
    nonempty false e = absurd (ground (arith, eq_iff "b" ""))

abbrev coded_entry : Entry
coded_entry = record completed_entry { integrity_mac = some "a" }

-- The completed row, set back to a retryable failure by hand.
abbrev edited_entry : Entry
edited_entry = record coded_entry { state = retryable_failure }

codes_apart : ◌≢◌ {A = Option String} (some "a") (some "b")
codes_apart e = absurd (ground (arith, eq_iff "a" "b"))

edited_differs : edited_entry ≢ coded_entry
edited_differs e = absurd (let states = ap (λ x. x.state) e in cc)

edited_row_fails_example :
    verify_integrity state_crypto edited_entry (some "00")
    ≡ raised (runtime_error "Replay ledger integrity check failed")
edited_row_fails_example =
    edited_row_fails state_crypto coded_entry edited_entry "00" state_crypto-IsUsable
      (ground (arith, eq_iff "00" ""))
      (λ e. absurd (codes_apart (unfold stable_record_payload get in e)))
      (unfold verify_integrity compute_integrity_mac stable_record_payload get in refl) refl
      edited_differs

sealed_calls_answer_example :
    AllSealed sample_crypto (some "00") (run sample_crypto attempts [])
    × ((op : Op)
        → call_secret op ≡ some "00"
        → Answers sample_crypto op (run sample_crypto attempts []))
sealed_calls_answer_example =
    sealed_calls_answer sample_crypto (some "00") sample-IsUsable attempts []
      (unfold call_secret in (refl, (refl, (refl, (refl, (refl, (refl, tt))))))) tt
