-- ===== src/Network/Agent.antt =====
-- The state of an agent, its handlers and its registers (src/agent_delegation_network.py).
use agent_delegation_network.Auth.Signing.{Signer}
use agent_delegation_network.Json.{
  Fields, Items, Json, arr, bool, cons, end, field, get_or, nil, num, obj, str,
}
use agent_delegation_network.Json.Keys.{Key, KeyDict, key_lookup}
use agent_delegation_network.Policy.Decisions.{AgentInfo, get_agent_info}
use agent_delegation_network.Policy.Rules.{DelegationPolicy}
use agent_delegation_network.Prelude.{
  Bool, Exception, List, Option, Result, String, [], false, if◌then◌else◌, none, ok, raised,
  reverse, some, take, true, type_error, ℕ, ◌>>=◌, ◌∷◌,
}
use agent_delegation_network.Prelude.Dict.{Dict, erase, insert, lookup}
use agent_delegation_network.Protocol.Messages.{DelegationRequest, DelegationResult, expect_dict}
use agent_delegation_network.ReplayLedger.Table.{Table}

-- What a handler returns: the JSON view of a value (what `json.dumps` cannot print stands in it as its
-- `repr`), and what `json.dumps` raises on the value if it cannot print it.
pub record Returned : Type 0 where
  pub value : Json
  pub refused : Option Exception

abbrev pub plain : Json → Returned
plain v = record { value = v; refused = none }

-- A task handler: one of the built-in ones, or a function of the application that may raise, and that
-- may return what is no JSON value.
pub data Handler : Type 0 where
  echo ping agent_info : Handler
  custom : (Json → Result Returned) → Handler

pub data LogKind : Type 0 where
  delegation_created delegation_received delegation_completed : LogKind

pub record LogEntry : Type 0 where
  pub timestamp : ℕ
  pub kind : LogKind
  pub delegation_id : Json
  pub from_agent : Json
  pub to_agent : Json
  pub action : Json
  pub status : String
  pub has_error : Bool

pub record Agent : Type 0 where
  pub agent_id : String
  pub agent_name : String
  pub signer : Signer
  pub delegations : KeyDict DelegationRequest
  pub results : KeyDict DelegationResult
  pub task_handlers : Dict Handler
  pub delegation_log : List LogEntry
  pub policy : DelegationPolicy

-- The agent and the replay ledger of its host.
pub record Node : Type 0 where
  pub agent : Agent
  pub ledger : Table

-- `_register_builtin_handlers`
abbrev pub builtin_handlers : Dict Handler
builtin_handlers = ("ECHO", echo) ∷ ("GET_AGENT_INFO", agent_info) ∷ ("PING", ping) ∷ []

unfoldable pub register_task_handler : String → Handler → Agent → Agent
register_task_handler action h a = record a { task_handlers = insert action h a.task_handlers }

unfoldable pub unregister_task_handler : String → Agent → Agent
unregister_task_handler action a = record a { task_handlers = erase action a.task_handlers }

abbrev texts : List String → Items
texts [] = nil
texts (s ∷ l) = cons (str s) (texts l)

abbrev handler_names : Dict Handler → List String
handler_names [] = []
handler_names ((k, h) ∷ d) = k ∷ handler_names d

-- The value that `get_agent_info` of the policy returns.
unfoldable pub policy_info : AgentInfo → Fields
policy_info i = field "agent_id" (str i.agent_id) (
    field "allowed_actions" (arr (texts i.allowed_actions)) (
      field "trusted_agents" (arr (texts i.trusted_agents)) (
        field "trusting_agents" (arr (texts i.trusting_agents)) (
          field "rate_limits" i.rate_limits
            (field "delegation_quota" (num i.delegation_quota) end)))))

-- `_handle_echo`, `_handle_ping`, `_handle_get_agent_info`, and a registered function
unfoldable pub run_handler : Agent → ℕ → Handler → Json → Result Returned
run_handler a now echo parameters = do
  d ← expect_dict parameters
  ok (
      plain (
        obj (
          field "echo" (get_or (str "") "message" d)
            (field "timestamp" (num now) (field "agent_id" (str a.signer.agent_id) end)))))
run_handler a now ping parameters = ok (
    plain (
      obj (
        field "pong" (bool true)
          (field "timestamp" (num now) (field "agent_id" (str a.signer.agent_id) end)))))
run_handler a now agent_info parameters = ok (
    plain (
      obj (
        field "agent_name" (str a.agent_name) (
          field "agent_id" (str a.agent_id) (
            field "did" a.signer.did (
              field "public_key_hex" (str a.signer.pub_hex) (
                field "available_handlers" (arr (texts (handler_names a.task_handlers))) (
                  field "policy_info"
                    (obj (policy_info (get_agent_info a.policy a.signer.agent_id))) end))))))))
run_handler a now (custom f) parameters = f parameters

-- `self._task_handlers.get(action)`
unfoldable pub find_handler : Json → Agent → Result (Option Handler)
find_handler (str action) a = ok (lookup action a.task_handlers)
find_handler (arr _) a = raised (type_error "unhashable type")
find_handler (obj _) a = raised (type_error "unhashable type")
find_handler _ a = ok none

-- `get_delegation_result`
unfoldable pub get_delegation_result : Key → Agent → Option DelegationResult
get_delegation_result k a = key_lookup k a.results

abbrev pub has_result : Key → KeyDict DelegationResult → Bool
has_result k results = elim (key_lookup k results) [ none ↦ false | some _ ↦ true ]

-- `get_pending_delegations`
unfoldable pub pending_of :
    KeyDict DelegationResult → KeyDict DelegationRequest → List DelegationRequest
pending_of results [] = []
pending_of results ((k, r) ∷ d) =
    let rest = pending_of results d in if has_result k results then rest else r ∷ rest

unfoldable pub get_pending_delegations : Agent → List DelegationRequest
unfolding pending_of
get_pending_delegations a = pending_of a.results a.delegations

-- `get_delegation_log`: the most recent entries first
unfoldable pub get_delegation_log : Option ℕ → Agent → List LogEntry
get_delegation_log none a = reverse a.delegation_log
get_delegation_log (some limit) a = take limit (reverse a.delegation_log)
