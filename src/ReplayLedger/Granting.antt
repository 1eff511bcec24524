-- ===== src/ReplayLedger/Granting.antt =====
-- When `begin_request_execution` of src/replay_ledger.py grants an execution.
use agent_delegation_network.Crypto.{Crypto}
use agent_delegation_network.Prelude.{
  Bool-cases, Option, Option-cases, String, ap, arith, false, inl, inr, leb, ltb, none, ok, refl,
  some, true, ℕ, ◌-◌, ◌<◌, ◌∙◌, ◌≡◌, ◌≢◌, ◌≤◌, ◌⊎◌,
}
use agent_delegation_network.ReplayLedger.Answers.{
  SealedRow, begin_answer, begin_request_execution-answer,
}
use agent_delegation_network.ReplayLedger.Entry.{
  Entry, State, completed, consumed, final_failure, retryable_failure, running, running_lease,
}
use agent_delegation_network.ReplayLedger.Execution.{
  Grant, Request, begin_request_execution, refusal, retry_limit_exceeded,
}
use agent_delegation_network.ReplayLedger.Integrity.{IsUsable}
use agent_delegation_network.ReplayLedger.Table.{IsKeyed, Table, alive, select}

-- What the alive row of the key must be for an execution to start.
pub record MayRun (now : ℕ) (e : Entry) : Type 0 where
  pub not_completed : e.state ≢ completed
  pub not_final : e.state ≢ final_failure
  pub lease_over : e.state ≡ running → running_lease ≤ now - e.updated_at
  pub attempt_left : e.attempt_count < e.max_attempts

unfoldable pub IsFree : ℕ → Option Entry → Type 0
IsFree now none = Unit
IsFree now (some e) = MayRun now e

refusal-none :
    (now : ℕ) (e : Entry) (s : State)
    → e.state ≡ s
    → e.attempt_count < e.max_attempts
    → refusal s (ltb (now - e.updated_at) running_lease) ≡ none
    → MayRun now e
unfolding refusal
refusal-none now e running is left h = record {
  not_completed = λ p. cc;
  not_final = λ p. cc;
  lease_over = λ p. ground arith;
  attempt_left = left;
}
refusal-none now e completed is left h = absurd (cc)
refusal-none now e final_failure is left h = absurd (cc)
refusal-none now e retryable_failure is left h = record {
  not_completed = λ p. cc;
  not_final = λ p. cc;
  lease_over = λ p. absurd (cc);
  attempt_left = left;
}
refusal-none now e consumed is left h = record {
  not_completed = λ p. cc;
  not_final = λ p. cc;
  lease_over = λ p. absurd (cc);
  attempt_left = left;
}

none-refusal :
    (now : ℕ) (e : Entry) (s : State)
    → e.state ≡ s
    → MayRun now e
    → refusal s (ltb (now - e.updated_at) running_lease) ≡ none
unfolding refusal
none-refusal now e running is m = let over = m.lease_over is in ground arith
none-refusal now e completed is m = absurd (m.not_completed is)
none-refusal now e final_failure is m = absurd (m.not_final is)
none-refusal now e retryable_failure is m = refl
none-refusal now e consumed is m = refl

-- An answer of the ledger: a grant with the new token, or a refusal with no token.
IsAnswer : Grant → String → Option Entry → ℕ → Type 0
IsAnswer g token row now =
    ((g ≡ (true, "", some token)) × IsFree now row)
    ⊎ ((reason : String) × (g ≡ (false, reason, none)) × ¬ IsFree now row)

begin_answer-IsAnswer :
    (r : Request) (now : ℕ) (token : String) (row : Option Entry)
    → IsAnswer (begin_answer r now token row) token row now
unfolding begin_answer IsFree IsAnswer
begin_answer-IsAnswer r now token none = inl (refl, tt)
begin_answer-IsAnswer r now token (some e) =
    elim (Option-cases (refusal e.state (ltb (now - e.updated_at) running_lease))) [
      | inr (reason, p) ↦ inr (
        reason,
        rw (p, begin_answer) refl,
        λ m. absurd (let q = none-refusal now e e.state refl m in cc),
      )
      | inl p ↦ elim (Bool-cases (leb e.max_attempts e.attempt_count)) [
        | inl q ↦ inr (
          retry_limit_exceeded,
          rw (p, begin_answer) (rw q refl),
          λ m. absurd (let left = m.attempt_left in ground arith),
        )
        | inr q ↦
            inl (rw (p, begin_answer) (rw q refl), refusal-none now e e.state refl (ground arith) p)
      ]
    ]

module _ (c : Crypto) (r : Request) (now : ℕ) (token : String)
    (u : IsUsable c r.integrity_secret_hex) where
  -- With a usable secret, in a keyed table in which the row of a non-empty key, if it has not expired,
  -- verifies, a begin raises nothing. It grants an execution, with the new token, if there is no
  -- such row, or if that row is neither COMPLETED nor FINAL_FAILURE, is not RUNNING within its lease,
  -- and has an attempt left; in every other case it refuses, and gives no token.
  pub begin_request_execution_by_row :
      (db : Table)
      → r.replay_key ≢ ""
      → IsKeyed db
      → SealedRow c r.integrity_secret_hex (alive now (select r.replay_key db))
      → let row = alive now (select r.replay_key db) in
        (((begin_request_execution c r now token db).0 ≡ ok (true, "", some token))
          × IsFree now row)
        ⊎ ((reason : String) × ((begin_request_execution c r now token db).0
              ≡ ok (false, reason, none))
            × ¬ IsFree now row)
  unfolding IsAnswer
  begin_request_execution_by_row db ne keyed sealed =
      let row = alive now (select r.replay_key db) in
      let answered = begin_request_execution-answer c r now token u db ne keyed sealed in
      elim (begin_answer-IsAnswer r now token row) [
        | inl (g, free) ↦ inl (answered ∙ ap ok g, free)
        | inr (reason, g, blocked) ↦ inr (reason, answered ∙ ap ok g, blocked)
      ]
