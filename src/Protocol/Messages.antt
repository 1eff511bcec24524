-- ===== src/Protocol/Messages.antt =====
-- `DelegationRequest` and `DelegationResult` of src/delegation_protocol.py. The program does not check
-- the types of what it reads from the wire, so a field is any value.
use agent_delegation_network.Auth.Signing.{Signer, sign_action_request}
use agent_delegation_network.Crypto.{Crypto}
use agent_delegation_network.Json.{
  Fields, Json, append, arr, end, field, get, get_or, is_str, nil, num, obj, str,
}
use agent_delegation_network.Json.Equality.{as_number, is_null, is_number}
use agent_delegation_network.Prelude.{
  Bool, Option, Result, String, attribute_error, if◌then◌else◌, ltb, none, ok, raised, some,
  type_error, value_error, ℕ, ◌+◌, ◌-◌, ◌>>=◌,
}
use agent_delegation_network.ReplayLedger.Entry.{seconds}
use agent_delegation_network.Tee.Checks.{as_dict}

pub data DelegationStatus : Type 0 where
  pending in_progress completed failed revoked : DelegationStatus

abbrev pub status_value : DelegationStatus → String
status_value pending = "PENDING"
status_value in_progress = "IN_PROGRESS"
status_value completed = "COMPLETED"
status_value failed = "FAILED"
status_value revoked = "REVOKED"

pub record DelegationRequest : Type 0 where
  pub delegation_id : Json
  pub from_agent_id : Json
  pub to_agent_id : Json
  pub action : Json
  pub task_description : Json
  pub parameters : Json
  pub nonce : Json
  pub deadline : Json
  pub issued_at : Json
  pub expires_at : Json
  pub tee_authorization : Json
  pub required_capabilities : Json

-- `v == 0.0`
abbrev pub is_zero : Json → Bool
is_zero v = is_number 0 v

-- `v + 3600`
abbrev pub add_hour : Json → Result Json
add_hour v = elim (as_number v) [
  | none ↦ raised (type_error "unsupported operand type(s) for +")
  | some n ↦ ok (num (n + seconds 3600))
]

-- `DelegationRequest.__post_init__`
abbrev pub default_issued_at : ℕ → Json → Json
default_issued_at now v = if is_zero v then num now else v

abbrev pub default_expires_at : Json → Json → Result Json
default_expires_at issued_at v = if is_zero v then add_hour issued_at else ok v

unfoldable pub post_init_request : ℕ → DelegationRequest → Result DelegationRequest
post_init_request now r = do
  let issued = default_issued_at now r.issued_at
  expires ← default_expires_at issued r.expires_at
  ok (record r {
    required_capabilities =
        if is_null r.required_capabilities then arr nil else r.required_capabilities;
    issued_at = issued;
    expires_at = expires;
  })

-- A field that is written only if there is a receipt.
abbrev pub receipt_field : Json → Fields
receipt_field v = if is_null v then end else field "tee_authorization" v end

-- The payload of `DelegationRequest.to_action_request`.
unfoldable pub request_payload : DelegationRequest → Fields
request_payload r = field "delegation_id" r.delegation_id (
    field "from_agent_id" r.from_agent_id (
      field "to_agent_id" r.to_agent_id (
        field "action" r.action (
          field "task_description" r.task_description (
            field "parameters" r.parameters (
              field "deadline" r.deadline (
                field "required_capabilities" r.required_capabilities (
                  field "nonce" r.nonce (
                    field "issued_at" r.issued_at
                      (field "expires_at" r.expires_at (receipt_field r.tee_authorization)))))))))))

-- `v.get` of what should be a dict
abbrev pub expect_dict : Json → Result Fields
expect_dict v = elim (as_dict v) [
  | none ↦ raised (attribute_error "object has no attribute 'get'")
  | some fs ↦ ok fs
]

-- `DelegationRequest.from_action_request`
unfoldable pub request_from_fields : Fields → Fields → DelegationRequest
request_from_fields signed_request d = record {
  delegation_id = get_or (str "") "delegation_id" d;
  from_agent_id = get_or (str "") "from_agent_id" d;
  to_agent_id = get_or (str "") "to_agent_id" d;
  action = get_or (str "") "action" d;
  task_description = get_or (str "") "task_description" d;
  parameters = get_or (obj end) "parameters" d;
  nonce = get_or (get_or (str "") "nonce" signed_request) "nonce" d;
  deadline = get "deadline" d;
  issued_at = get_or (num 0) "issued_at" d;
  expires_at = get_or (num 0) "expires_at" d;
  tee_authorization = get "tee_authorization" d;
  required_capabilities = get_or (arr nil) "required_capabilities" d;
}

unfoldable pub request_from_action_request : ℕ → Fields → Result DelegationRequest
unfolding request_from_fields post_init_request
request_from_action_request now signed_request = do
  d ← expect_dict (get_or (obj end) "delegation_data" signed_request)
  post_init_request now (request_from_fields signed_request d)

-- `time.time() > self.expires_at`
unfoldable pub is_expired : ℕ → DelegationRequest → Result Bool
is_expired now r = elim (as_number r.expires_at) [
  | none ↦ raised (type_error "'>' not supported between these types")
  | some t ↦ ok (ltb t now)
]

unfoldable pub time_until_deadline : ℕ → DelegationRequest → Result (Option ℕ)
time_until_deadline now r = if is_null r.deadline then ok none else elim (as_number r.deadline) [
  | none ↦ raised (type_error "unsupported operand type(s) for -")
  | some t ↦ ok (some (t - now))
]

pub record DelegationResult : Type 0 where
  pub delegation_id : Json
  pub from_agent_id : Json
  pub to_agent_id : Json
  pub status : DelegationStatus
  pub result : Json
  pub error : Json
  pub nonce : Json
  pub issued_at : Json
  pub tee_authorization : Json

-- `DelegationResult.__post_init__`; `fresh` is the text of a new uuid4
unfoldable pub post_init_result : ℕ → String → DelegationResult → DelegationResult
post_init_result now fresh r = record r {
  issued_at = if is_null r.issued_at then num now else r.issued_at;
  nonce = if is_null r.nonce then str fresh else r.nonce;
}

-- The payload of `DelegationResult.to_action_request`.
unfoldable pub result_payload : DelegationResult → Fields
result_payload r = field "delegation_id" r.delegation_id (
    field "from_agent_id" r.from_agent_id (
      field "to_agent_id" r.to_agent_id (
        field "status" (str (status_value r.status)) (
          field "result" r.result (
            field "error" r.error (
              field "nonce" r.nonce
                (field "issued_at" r.issued_at (receipt_field r.tee_authorization))))))))

-- `DelegationStatus(v)`
unfoldable pub status_of : Json → Result DelegationStatus
status_of v =
    if is_str "PENDING" v
    then ok pending
    else if is_str "IN_PROGRESS" v
    then ok in_progress
    else if is_str "COMPLETED" v
    then ok completed
    else if is_str "FAILED" v
    then ok failed
    else if is_str "REVOKED" v
    then ok revoked
    else raised (value_error "is not a valid DelegationStatus")

-- `DelegationResult.from_action_request`
unfoldable pub result_from_action_request : ℕ → String → Fields → Result DelegationResult
unfolding status_of post_init_result
result_from_action_request now fresh signed_request = do
  d ← expect_dict (get_or (obj end) "result_data" signed_request)
  status ← status_of (get_or (str "FAILED") "status" d)
  ok (
      post_init_result now fresh (record {
        delegation_id = get_or (str "") "delegation_id" d;
        from_agent_id = get_or (str "") "from_agent_id" d;
        to_agent_id = get_or (str "") "to_agent_id" d;
        status = status;
        result = get "result" d;
        error = get "error" d;
        nonce = get "nonce" d;
        issued_at = get_or (num 0) "issued_at" d;
        tee_authorization = get "tee_authorization" d;
      }))

module _ (c : Crypto) where
  -- `to_action_request` of a request and of a result: the payload's digest is signed, and the payload
  -- is sent beside the proof.
  unfoldable pub request_to_action_request : Bool → String → Signer → ℕ → DelegationRequest → Fields
  unfolding append
  request_to_action_request mock did s now r =
      append
        (sign_action_request c mock did "DELEGATE_TASK" r.nonce (some (obj (request_payload r))) s
          now)
        (field "delegation_data" (obj (request_payload r)) end)

  unfoldable pub result_to_action_request : Bool → String → Signer → ℕ → DelegationResult → Fields
  unfolding append
  result_to_action_request mock did s now r =
      append
        (sign_action_request c mock did "TASK_RESULT" r.nonce (some (obj (result_payload r))) s now)
        (field "result_data" (obj (result_payload r)) end)
