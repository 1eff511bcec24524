-- ===== src/Tests/Rules.antt =====
-- The policy, the runtime mode and the nonce cache.
use agent_delegation_network.Json.{str}
use agent_delegation_network.Json.Keys.{text}
use agent_delegation_network.Policy.Decisions.{
  evaluate_delegation_request, evaluate_delegation_request_iff, is_trusted,
}
use agent_delegation_network.Policy.Edits.{
  Edit, add_rule, add_trust, approved_after_edits, edit_all, edit_view_all, remove_rule, view,
}
use agent_delegation_network.Policy.Rules.{is_member}
use agent_delegation_network.Prelude.{
  List, [], false, length, none, ok, refl, some, true, ◌&&◌, ◌==◌, ◌∷◌, ◌≡◌, ◌≢◌, ◌≤◌,
}
use agent_delegation_network.ReplayLedger.Entry.{given, seconds}
use agent_delegation_network.RuntimeSecurity.Context.{
  WorkerAuthorizationContext, demanded, from_trusted_config, gateway_context_configured,
  waived_only_outside_live,
}
use agent_delegation_network.RuntimeSecurity.Mode.{
  codes, demo, is_space, live, resolve_runtime_mode,
}
use agent_delegation_network.SecretKeys.{
  FileStat, Host, KeyPath, configured_integrity_secret_hex, read_secret,
}
use agent_delegation_network.SecretKeys.Private.{IsPrivate, live_secret-IsPrivate}
use agent_delegation_network.Tests.Samples.{sample_policy}
use agent_delegation_network.Text.Strings.{characters, strip_text}
use agent_delegation_network.Verifier.Nonces.{Cache, consume_result_nonce, is_seen, max_seen_nonces}
use agent_delegation_network.Verifier.Retention.{
  IsCovered, IsDistinct, IsMatched, consume_result_nonce_bounded, is_queued,
}

abbrev sample_edits : List Edit
sample_edits =
    add_rule "a" "PING" ∷ add_rule "b" "PING" ∷ add_trust "a" "b" ∷ remove_rule "b" "PING" ∷ []

evaluate_delegation_request_iff_example :
    (evaluate_delegation_request sample_policy "PING" "a" "b").0 ≡ (
      is_member "a" "PING" sample_policy.delegation_rules
      && is_trusted sample_policy "a" "b"
      && is_member "b" "PING" sample_policy.delegation_rules)
evaluate_delegation_request_iff_example =
    evaluate_delegation_request_iff sample_policy "PING" "a" "b"

approved_after_edits_example :
    let v = edit_view_all sample_edits (view sample_policy) in
    (evaluate_delegation_request (edit_all sample_edits sample_policy) "PING" "a" "b").0
    ≡ (v.may "a" "PING" && v.trusts "a" "b" && v.may "b" "PING")
approved_after_edits_example = approved_after_edits sample_edits sample_policy "PING" "a" "b"

abbrev demo_context : WorkerAuthorizationContext
demo_context = record {
  runtime_mode = demo;
  require_tee_authorization = false;
  expected_gateway_public_key_hex = "";
  expected_gateway_key_id = "";
  expected_build_config_id = "";
}

waived_only_outside_live_example :
    (resolve_runtime_mode none (some (codes " Demo ")) ≡ ok demo)
    × (demo ≢ live)
    × (given none ≡ false)
    × (given none ≡ false)
    × (given none ≡ false)
    × (demanded (some false) ≡ false)
waived_only_outside_live_example =
    waived_only_outside_live (some (codes " Demo ")) none none none (some false) demo_context
      (unfold from_trusted_config resolve_runtime_mode gateway_context_configured is_space in refl)
      refl

abbrev one_nonce : Cache
one_nonce = record {
  seen = text "m" ∷ [];
  order = record { nonce = text "m"; created_at = seconds 4 } ∷ [];
}

one_nonce-IsMatched : IsMatched one_nonce
unfolding IsDistinct IsCovered is_seen is_queued
one_nonce-IsMatched = record { distinct = (refl, tt); covered = λ k h. h }

consume_result_nonce_bounded_example :
    let q' = (consume_result_nonce (seconds 5) (str "n") one_nonce).1 in
    IsMatched q' × (length q'.order ≤ max_seen_nonces) × (length q'.seen ≤ max_seen_nonces)
consume_result_nonce_bounded_example =
    consume_result_nonce_bounded (seconds 5) (str "n") one_nonce one_nonce-IsMatched

abbrev key_stat : FileStat
key_stat = record { is_link = false; is_regular = true; mode = 384; uid = 7 }

abbrev key_path : KeyPath
key_path = record {
  is_absolute = true;
  link_stat = some key_stat;
  parent_stat = some (record key_stat { mode = 448; is_regular = false });
  content = some " 0xAB ";
}

abbrev sample_host : Host
sample_host = record { is_windows = false; euid = some 7; path_at = λ s. key_path }

key_accepted : configured_integrity_secret_hex sample_host "" "/k" (ok live) ≡ ok (some "ab")
unfolding configured_integrity_secret_hex characters
key_accepted = refl

live_secret-IsPrivate_example :
    ((strip_text "" == "") ≡ true)
    × ((strip_text "/k" == "") ≡ false)
    × IsPrivate (sample_host.path_at (strip_text "/k")) 7
    × (read_secret (sample_host.path_at (strip_text "/k")) ≡ ok (some "ab"))
live_secret-IsPrivate_example =
    live_secret-IsPrivate sample_host 7 "" "/k" (some "ab") refl refl key_accepted
