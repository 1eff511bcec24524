-- ===== src/Tests/Executor.antt =====
-- A session of the worker executor, and an execution receipt.
use agent_delegation_network.Audit.{build_execution_receipt}
use agent_delegation_network.Json.{Fields, end, field, find, get, get_or, is_str, str}
use agent_delegation_network.Json.Keys.{hash_key, same_key, text}
use agent_delegation_network.Prelude.{All, List, [], arith, eq_iff, ok, refl, ◌∷◌, ◌≡◌}
use agent_delegation_network.RuntimeSecurity.Mode.{same_codes}
use agent_delegation_network.Tests.Samples.{sample_crypto}
use agent_delegation_network.Worker.Lifetime.{Spares, serve_all, session_signs}
use agent_delegation_network.Worker.Sessions.{Fresh, authorized, handle_rpc}

abbrev first_fresh : Fresh
first_fresh = record { private_key = "key"; session_id = "one"; agent_suffix = "a" }

abbrev second_fresh : Fresh
second_fresh = record { private_key = "other key"; session_id = "two"; agent_suffix = "b" }

abbrev create_call : Fields
create_call = field "token" (str "secret") (field "method" (str "create_session") end)

abbrev close_call : Fields
close_call =
    field "token" (str "secret")
      (field "method" (str "close_session") (field "session_id" (str "two") end))

abbrev sign_call : Fields
sign_call = field "token" (str "secret") (
    field "method" (str "sign_result")
      (field "session_id" (str "one") (field "payload" (str "work") end)))

abbrev between_calls : List (Fresh × Fields)
between_calls = (second_fresh, create_call) ∷ (second_fresh, close_call) ∷ []

others_spared : All (Spares (text "one")) between_calls
unfolding same_key is_str get get_or find hash_key
others_spared = (
  (
    ground (arith, eq_iff "two" "one"),
    λ j e h. absurd (ground (arith, eq_iff "create_session" "close_session")),
  ),
  ((ground (arith, eq_iff "two" "one"), λ j e h. ground (arith, eq_iff "two" "one")), tt),
)

session_signs_example :
    (handle_rpc sample_crypto "secret" second_fresh sign_call (
      serve_all sample_crypto "secret" between_calls
        (handle_rpc sample_crypto "secret" first_fresh create_call []).1)).0
    ≡ ok (field "signature" (str "sig") (field "session_id" (str "one") end))
session_signs_example =
    session_signs sample_crypto "secret" first_fresh create_call second_fresh sign_call
      between_calls [] (unfold authorized get_or find same_codes in refl)
      (unfold is_str get in refl) others_spared (unfold authorized get_or find same_codes in refl)
      (unfold is_str get in refl) (unfold is_str get in refl) (unfold get_or find in refl)

abbrev sample_decision : Fields
sample_decision = field "decision" (str "ALLOW") (field "action" (str "PING") end)

abbrev sample_built : Fields
sample_built = build_execution_receipt sample_crypto "0123" sample_decision
