-- ===== src/Audit.antt =====
-- `build_receipt` and `verify_receipt` of src/execution_receipt.py.
use agent_delegation_network.Auth.Hashing.{digest}
use agent_delegation_network.Crypto.{Crypto}
use agent_delegation_network.Json.{Fields, append, bool, end, field, get, has, is_str, obj, str}
use agent_delegation_network.Json.Equality.{is_str→eq}
use agent_delegation_network.Prelude.{
  Bool, String, arith, eq_refl, false, if◌then◌else◌, sym, true, ◌==◌, ◌∙◌, ◌≡◌,
}
use agent_delegation_network.Text.Strings.{concat_text}

-- `d.pop(k)`
unfoldable pub remove : String → Fields → Fields
remove k end = end
remove k (field j v fs) = let rest = remove k fs in if j == k then rest else field j v rest

-- `fresh` is `uuid.uuid4().hex[:12]`.
unfoldable pub unhashed_receipt : String → Fields → Fields
unfolding concat_text get
unhashed_receipt fresh decision = field "receipt_id" (str (concat_text "effv3-receipt-" fresh)) (
    field "decision" (get "decision" decision) (
      field "ts" (get "ts" decision) (
        field "action" (get "action" decision) (
          field "agent_fingerprint" (get "agent_fingerprint" decision) (
            field "denial_code" (get "denial_code" decision) (
              field "nonce_hash" (get "nonce_hash" decision) (
                field "proof_hash" (get "proof_hash" decision) (
                  field "policy_version" (get "policy_version" decision) (
                    field "spec_version" (str "1.0") (
                      field "raw_secret_included" (bool false)
                        (field "authority" (str "UNTRUSTED_ADVISORY") end)))))))))))

module _ (c : Crypto) where
  unfoldable pub build_execution_receipt : String → Fields → Fields
  unfolding append
  build_execution_receipt fresh decision =
      append (unhashed_receipt fresh decision)
        (field "receipt_hash" (str (digest c (obj (unhashed_receipt fresh decision)))) end)

  -- The hash is taken off the receipt, and put back afterwards.
  unfoldable pub verify_execution_receipt : Fields → Bool
  verify_execution_receipt receipt =
      if has "receipt_hash" receipt
      then is_str (digest c (obj (remove "receipt_hash" receipt))) (get "receipt_hash" receipt)
      else false

  verified_hash :
      (receipt : Fields)
      → verify_execution_receipt receipt ≡ true
      → get "receipt_hash" receipt ≡ str (digest c (obj (remove "receipt_hash" receipt)))
  unfolding verify_execution_receipt
  verified_hash receipt h =
      is_str→eq (digest c (obj (remove "receipt_hash" receipt))) (get "receipt_hash" receipt)
        (ground arith)

  -- Every receipt that is built verifies.
  pub built_receipt_verifies :
      (fresh : String) (decision : Fields)
      → verify_execution_receipt (build_execution_receipt fresh decision) ≡ true
  unfolding verify_execution_receipt build_execution_receipt unhashed_receipt append remove has get
      is_str
  built_receipt_verifies fresh decision = eq_refl (digest c (obj (unhashed_receipt fresh decision)))

  -- If another receipt carries the hash of one that was built and verifies, its other fields have the
  -- same digest as those that were built: a change that goes unnoticed is a collision of the digest.
  pub changed_receipt_collides :
      (fresh : String) (decision other : Fields)
      → get "receipt_hash" other ≡ get "receipt_hash" (build_execution_receipt fresh decision)
      → verify_execution_receipt other ≡ true
      → digest c (obj (remove "receipt_hash" other))
        ≡ digest c (obj (unhashed_receipt fresh decision))
  unfolding build_execution_receipt unhashed_receipt append get
  changed_receipt_collides fresh decision other same ok_other =
      let e : str (digest c (obj (remove "receipt_hash" other)))
          ≡ str (digest c (obj (unhashed_receipt fresh decision))) =
        sym (verified_hash other ok_other) ∙ same in
      ground arith
