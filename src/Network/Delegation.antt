-- ===== src/Network/Delegation.antt =====
-- `delegate_task` of src/agent_delegation_network.py, and `create_delegation_request` of
-- src/delegation_protocol.py.
use agent_delegation_network.Json.{Json, arr, end, get, nil, num, obj, or_else, str, truthy}
use agent_delegation_network.Json.Equality.{is_null}
use agent_delegation_network.Json.Keys.{Key, key_insert, text}
use agent_delegation_network.Network.Agent.{Agent, delegation_created}
use agent_delegation_network.Policy.Decisions.{evaluate_delegation_request}
use agent_delegation_network.Prelude.{
  Result, String, [], false, if◌then◌else◌, ok, permission_error, raised, ℕ, ◌++◌, ◌+◌, ◌>>=◌, ◌∷◌,
}
use agent_delegation_network.Protocol.Messages.{DelegationRequest, expect_dict}
use agent_delegation_network.ReplayLedger.Entry.{seconds}
use agent_delegation_network.Text.Strings.{str_of}
use agent_delegation_network.Verifier.Verification.{text_of}

-- The arguments of `delegate_task`.
pub record Task : Type 0 where
  pub to_agent_id : String
  pub action : String
  pub task_description : String
  pub parameters : Json
  pub deadline : Json
  pub required_capabilities : Json
  pub tee_authorization : Json

-- The id of the receipt if there is one, as a text; `get` of a receipt that is no dict raises.
unfoldable pub receipt_delegation_id : (Json → String) → String → Json → Result String
receipt_delegation_id repr fresh receipt =
    if truthy receipt
    then (expect_dict receipt >>= λ d.
        ok (if truthy (get "delegation_id" d) then str_of repr (get "delegation_id" d) else fresh))
    else ok fresh

-- `fresh_id` and `nonce` are new uuid4 texts. A new request has both its times, so `__post_init__`
-- leaves it as it is.
abbrev pub new_request : ℕ → String → String → String → Task → DelegationRequest
new_request now delegation_id' nonce from_agent_id t = record {
  delegation_id = str delegation_id';
  from_agent_id = str from_agent_id;
  to_agent_id = str t.to_agent_id;
  action = str t.action;
  task_description = str t.task_description;
  parameters = if is_null t.parameters then obj end else t.parameters;
  nonce = str nonce;
  deadline = t.deadline;
  issued_at = num now;
  expires_at = num (now + seconds 3600);
  tee_authorization = t.tee_authorization;
  required_capabilities = or_else (arr nil) t.required_capabilities;
}

unfoldable pub create_delegation_request :
    (Json → String) → ℕ → String → String → String → Task → Result DelegationRequest
unfolding receipt_delegation_id
create_delegation_request repr now fresh_id nonce from_agent_id t =
    receipt_delegation_id repr fresh_id t.tee_authorization >>= λ id.
    ok (new_request now id nonce from_agent_id t)

abbrev pub record_created : ℕ → Task → DelegationRequest → Key → Agent → Agent
record_created now t r k a = record a {
  delegations = key_insert k r a.delegations;
  delegation_log =
      a.delegation_log
      ++ record {
        timestamp = now;
        kind = delegation_created;
        delegation_id = r.delegation_id;
        from_agent = str a.signer.agent_id;
        to_agent = str t.to_agent_id;
        action = str t.action;
        status = "";
        has_error = false;
      }
        ∷ [];
}

-- After the request has been made: the policy decides, and an allowed request is registered under its
-- id, which is returned.
unfoldable pub register : ℕ → Task → Agent → Result DelegationRequest → Result Json × Agent
register now t a (raised e) = (raised e, a)
register now t a (ok r) =
    if (evaluate_delegation_request a.policy t.action a.signer.agent_id t.to_agent_id).0
    then (ok r.delegation_id, record_created now t r (text (text_of r.delegation_id)) a)
    else (raised (permission_error "Delegation not allowed"), a)

unfoldable pub delegate_task :
    (Json → String) → ℕ → String → String → Task → Agent → Result Json × Agent
unfolding create_delegation_request register
delegate_task repr now fresh_id nonce t a =
    register now t a (create_delegation_request repr now fresh_id nonce a.signer.agent_id t)
