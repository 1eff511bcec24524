-- ===== src/Tests/Samples.antt =====
-- Stand-ins for the libraries that the program calls, and sample data.
use agent_delegation_network.Auth.Hashing.{key_fingerprint, take_chars}
use agent_delegation_network.Auth.RoundTrip.{IsKeyPair, ReadsBack}
use agent_delegation_network.Auth.Signing.{Signer}
use agent_delegation_network.Crypto.{Crypto, aware}
use agent_delegation_network.Json.{arr, end, nil, null, num, obj, str}
use agent_delegation_network.Network.Agent.{Agent, Node, builtin_handlers}
use agent_delegation_network.Network.Execution.{Environment}
use agent_delegation_network.Policy.Rules.{DelegationPolicy}
use agent_delegation_network.Prelude.{
  List, String, [], ap, arith, eq_iff, false, if◌then◌else◌, none, ok, refl, some, suc, true, zero,
  ℕ, ◌==◌, ◌∷◌, ◌≡◌,
}
use agent_delegation_network.Protocol.Messages.{DelegationRequest}
use agent_delegation_network.Protocol.Validation.{Receiver}
use agent_delegation_network.ReplayLedger.Consumption.{ResultReplay}
use agent_delegation_network.ReplayLedger.Entry.{Entry, State, seconds}
use agent_delegation_network.ReplayLedger.Execution.{Request, finished, first_attempt}
use agent_delegation_network.ReplayLedger.Integrity.{IsUsable}
use agent_delegation_network.RuntimeSecurity.Mode.{codes}
use agent_delegation_network.Verifier.Nonces.{Cache}

abbrev pub zeros : ℕ → List ℕ
zeros zero = []
zeros (suc n) = 0 ∷ zeros n

-- Every digest is one text, every key has 32 bytes, every signature 64 and is good, and every time is
-- far in the future.
abbrev pub sample_crypto : Crypto
sample_crypto = record {
  dumps = λ v. "{}";
  sha256_hex = λ bytes. "0123456789abcdef";
  encode = λ s. [];
  from_hex = λ s. some (zeros (if s == "sig" then 64 else 32));
  hmac_sha256 = λ secret message. some "mac";
  iso_format = λ t. "later";
  from_iso_format = λ s. some (aware (seconds 1000));
  public_key = λ k. "pub";
  sign = λ k m. "sig";
  verify = λ k sig m. true;
}

abbrev pub sample_signer : Signer
sample_signer = record {
  private_key = "key";
  pub_hex = "pub";
  agent_id = "0123456789ab";
  did = null;
}

-- A time as so many marks, which can be counted again.
pub marks : ℕ → String
marks zero = String.[]
marks (suc n) = String.◌∷◌ "i" (marks n)

pub count_marks : String → ℕ
count_marks String.[] = 0
count_marks (String.◌∷◌ x s) = suc (count_marks s)

pub count_marks-marks : (n : ℕ) → count_marks (marks n) ≡ n
unfolding marks count_marks
count_marks-marks zero = refl
count_marks-marks (suc n) = ap suc (count_marks-marks n)

abbrev pub clock_crypto : Crypto
clock_crypto = record sample_crypto {
  iso_format = marks;
  from_iso_format = λ s. some (aware (count_marks s));
}

pub clock_crypto-ReadsBack : ReadsBack clock_crypto
clock_crypto-ReadsBack t = ap (λ n. some (aware n)) (count_marks-marks t)

pub sample_signer-IsKeyPair : IsKeyPair clock_crypto sample_signer
unfolding key_fingerprint take_chars
sample_signer-IsKeyPair = record {
  key = zeros 32;
  key_decoded = refl;
  key_length = refl;
  fingerprint = refl;
  signature = λ m. zeros 64;
  signature_decoded = λ m. refl;
  signature_length = λ m. refl;
  verifies = λ m. refl;
}

-- A request for the replay key "k".
abbrev pub sample_request : Request
sample_request = record {
  replay_key = "k";
  replay_expires_at = seconds 3600;
  owner_agent_id = "worker";
  delegation_id = "d";
  payload_fingerprint = "f";
  integrity_secret_hex = some "00";
}

abbrev pub sample_entry : Entry
sample_entry = record (first_attempt sample_request (seconds 10) "token") {
  integrity_mac = some "mac";
}

abbrev pub completed_entry : Entry
completed_entry = record (finished (seconds 20) State.completed none sample_entry) {
  state = State.completed;
  last_error = none;
}

abbrev pub sample_replay : ResultReplay
sample_replay = record {
  replay_key = "r";
  owner_agent_id = "coordinator";
  delegation_id = "d";
  payload_fingerprint = "f";
  expires_at = none;
  integrity_secret_hex = some "00";
}

pub sample-IsUsable : IsUsable sample_crypto (some "00")
sample-IsUsable m = ("mac", refl, ground (arith, eq_iff "mac" ""))

-- The sample signer may ping, and trusts itself.
abbrev pub sample_policy : DelegationPolicy
sample_policy = record {
  delegation_rules = ("0123456789ab", "PING" ∷ []) ∷ ("a", "PING" ∷ []) ∷ ("b", "PING" ∷ []) ∷ [];
  agent_trust = ("0123456789ab", "0123456789ab" ∷ []) ∷ [];
  rate_limits = [];
  delegation_quotas = [];
}

abbrev pub sample_agent : Agent
sample_agent = record {
  agent_id = "0123456789ab";
  agent_name = "worker";
  signer = sample_signer;
  delegations = [];
  results = [];
  task_handlers = builtin_handlers;
  delegation_log = [];
  policy = sample_policy;
}

abbrev pub sample_node : Node
sample_node = record { agent = sample_agent; ledger = [] }

-- A ping from the agent to itself.
abbrev pub ping_request : DelegationRequest
ping_request = record {
  delegation_id = str "d";
  from_agent_id = str "0123456789ab";
  to_agent_id = str "0123456789ab";
  action = str "PING";
  task_description = str "";
  parameters = obj end;
  nonce = str "n";
  deadline = null;
  issued_at = num (seconds 1);
  expires_at = num (seconds 3601);
  tee_authorization = null;
  required_capabilities = arr nil;
}

abbrev pub sample_environment : Environment
sample_environment = record {
  mock = false;
  configured_did = "";
  runtime_mode = some (codes "test");
  gateway_public_key_hex = none;
  gateway_key_id = none;
  build_config_id = none;
  require_tee_authorization = none;
  integrity_key = ok (some "00");
  received_at = seconds 10;
  validated_at = seconds 11;
  begun_at = seconds 12;
  logged_at = seconds 13;
  run_at = seconds 14;
  finished_at = seconds 15;
  closed_at = seconds 16;
  signed_at = seconds 17;
  execution_token = "token";
  nonce = "reply";
  meanwhile = [];
}

abbrev pub open_receiver : Receiver
open_receiver = record {
  agent_id = "0123456789ab";
  gateway_public_key_hex = "";
  gateway_key_id = "";
  build_config_id = "";
  requires_tee = false;
}

abbrev pub empty_cache : Cache
empty_cache = record { seen = []; order = [] }
