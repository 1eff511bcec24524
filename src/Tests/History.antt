-- ===== src/Tests/History.antt =====
-- A message that reaches an agent twice.
use agent_delegation_network.Json.{get, truthy}
use agent_delegation_network.Network.Authorization.{admit_read}
use agent_delegation_network.Network.Execution.{receipt_expiry, replay_expires_at}
use agent_delegation_network.Network.History.{
  Event, elsewhere, executions, handled_at_most_twice, received,
}
use agent_delegation_network.Network.LedgerCalls.{InWindow}
use agent_delegation_network.Network.Processing.{admit}
use agent_delegation_network.Prelude.{
  List, String, [], arith, false, ok, refl, subst, sym, ◌∙◌, ◌∷◌, ◌≡◌, ◌≤◌,
}
use agent_delegation_network.Protocol.Messages.{DelegationRequest}
use agent_delegation_network.Protocol.RoundTrip.{request_round_trip}
use agent_delegation_network.ReplayLedger.Entry.{seconds}
use agent_delegation_network.ReplayLedger.Moves.{begin}
use agent_delegation_network.ReplayLedger.Table.{select}
use agent_delegation_network.Tests.Messages.{ping-IsFilled, ping_message}
use agent_delegation_network.Tests.Samples.{
  ping_request, sample_crypto, sample_environment, sample_node, sample_request, sample_signer,
}

abbrev ping_key : String
ping_key = "0123456789abcdef"

admitted_ping :
    (own_id : String) (r : DelegationRequest)
    → admit sample_crypto sample_environment own_id ping_message ≡ ok (r, ping_key)
    → r ≡ ping_request
admitted_ping own_id r h =
    let (read, rest) =
      admit_read sample_crypto sample_environment own_id ping_message r ping_key h in
    let whole : ok r ≡ ok ping_request =
      sym read
      ∙ request_round_trip sample_crypto "" sample_signer false 0 (seconds 10) ping_request
          ping-IsFilled in
    ground arith

ping_InWindow : InWindow sample_crypto ping_key (seconds 1000) sample_environment ping_message
unfolding replay_expires_at receipt_expiry get truthy
ping_InWindow = record {
  begun = omega arith;
  ended = omega arith;
  others = tt;
  retained = λ own_id r expires_at h e.
      let p : replay_expires_at sample_crypto (seconds 12) ping_request ≡ ok expires_at =
        subst (λ z. replay_expires_at sample_crypto (seconds 12) z ≡ ok expires_at)
          (admitted_ping own_id r h) e in
      ground (arith, p);
}

abbrev twice : List Event
twice =
    received sample_environment ping_message
    ∷ elsewhere (begin sample_request (seconds 20) "b")
    ∷ received sample_environment ping_message
    ∷ []

handled_at_most_twice_example : executions sample_crypto ping_key twice sample_node ≤ 2
handled_at_most_twice_example =
    handled_at_most_twice sample_crypto ping_key (seconds 1000) twice sample_node tt
      (unfold select in refl)
      (ping_InWindow, ((omega arith, λ e. omega arith), (ping_InWindow, tt)))
