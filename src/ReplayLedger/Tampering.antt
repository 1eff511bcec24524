-- ===== src/ReplayLedger/Tampering.antt =====
-- The integrity code of a row covers every other column (src/replay_ledger.py).
use agent_delegation_network.Crypto.{Crypto}
use agent_delegation_network.Json.{opt_str}
use agent_delegation_network.Prelude.{
  Option, String, ap, arith, eq_iff, if◌then◌else◌, inl, inr, none, ok, raised, refl, runtime_error,
  some, suc, sym, zero, ℕ, ◌==◌, ◌∙◌, ◌≡◌, ◌≢◌,
}
use agent_delegation_network.ReplayLedger.Entry.{
  Entry, Kind, State, completed, consumed, final_failure, kind_text, request, result,
  retryable_failure, running, stable_record_payload, state_text, verify_integrity,
}
use agent_delegation_network.ReplayLedger.Integrity.{
  IsUsable, verify_integrity-cases, verify_integrity_iff,
}

kind_text-injective : (a b : Kind) → kind_text a ≡ kind_text b → a ≡ b
kind_text-injective request request h = refl
kind_text-injective result result h = refl
kind_text-injective request result h = absurd (ground (arith, eq_iff "request" "result"))
kind_text-injective result request h = absurd (ground (arith, eq_iff "result" "request"))

-- A number for each state, from its text.
number_of : String → ℕ
number_of s =
    if s == "RUNNING"
    then 0
    else if s == "COMPLETED"
    then 1
    else if s == "RETRYABLE_FAILURE"
    then 2
    else if s == "FINAL_FAILURE"
    then 3
    else 4

state_of : ℕ → State
state_of zero = running
state_of (suc zero) = completed
state_of (suc (suc zero)) = retryable_failure
state_of (suc (suc (suc zero))) = final_failure
state_of (suc (suc (suc (suc n)))) = consumed

state_of-state_text : (a : State) → state_of (number_of (state_text a)) ≡ a
unfolding state_of number_of
state_of-state_text running = refl
state_of-state_text completed = refl
state_of-state_text retryable_failure = refl
state_of-state_text final_failure = refl
state_of-state_text consumed = refl

state_text-injective : (a b : State) → state_text a ≡ state_text b → a ≡ b
state_text-injective a b h =
    sym (state_of-state_text a) ∙ ap (λ s. state_of (number_of s)) h ∙ state_of-state_text b

opt_str-injective : (a b : Option String) → opt_str a ≡ opt_str b → a ≡ b
opt_str-injective none none h = refl
opt_str-injective none (some b) h = absurd (cc)
opt_str-injective (some a) none h = absurd (cc)
opt_str-injective (some a) (some b) h = cc

-- Two rows with the same payload agree on every column but the code.
payload-injective :
    (e f : Entry)
    → stable_record_payload e ≡ stable_record_payload f
    → record e { integrity_mac = f.integrity_mac } ≡ f
unfolding stable_record_payload
payload-injective e f h =
    let k = kind_text-injective e.kind f.kind (cc) in
    let s = state_text-injective e.state f.state (cc) in
    let l = opt_str-injective e.last_error f.last_error (cc) in
    let t = opt_str-injective e.execution_token f.execution_token (cc) in cc

module _ (c : Crypto) where
  -- Take a row that verifies under a usable, non-empty secret, and another row with the same code that
  -- differs from it in some column. Unless the HMACs of the two printed payloads collide under that
  -- secret, verifying the other row raises the integrity failure.
  pub edited_row_fails :
      (e f : Entry) (secret : String)
      → IsUsable c (some secret)
      → secret ≢ ""
      → (c.hmac_sha256 secret (c.dumps (stable_record_payload e))
            ≡ c.hmac_sha256 secret (c.dumps (stable_record_payload f))
          → stable_record_payload e ≡ stable_record_payload f)
      → verify_integrity c e (some secret) ≡ ok tt
      → f.integrity_mac ≡ e.integrity_mac
      → f ≢ e
      → verify_integrity c f (some secret)
        ≡ raised (runtime_error "Replay ledger integrity check failed")
  edited_row_fails e f secret u ne apart verified same_code differs =
      elim (verify_integrity-cases c f secret u ne) [
        | inr failed ↦ failed
        | inl passed ↦
            let code_e = (verify_integrity_iff c e secret u ne).0 verified in
            let code_f = (verify_integrity_iff c f secret u ne).0 passed in
            let same = payload-injective e f (apart (sym code_e ∙ sym same_code ∙ code_f)) in
            absurd (differs (sym same ∙ same_columns))
      ]
    where
      same_columns : record e { integrity_mac = f.integrity_mac } ≡ e
      same_columns = rw same_code refl
