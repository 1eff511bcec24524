-- ===== src/RuntimeSecurity/Context.antt =====
-- `gateway_context_configured` and `WorkerAuthorizationContext` of src/runtime_security.py.
use agent_delegation_network.Prelude.{
  Bool, List, Option, Result, Result-cases, String, arith, false, inl, inr, none, ok, refl, require,
  some, true, ℕ, ◌>>=◌, ◌||◌, ◌≡◌, ◌≢◌,
}
use agent_delegation_network.ReplayLedger.Entry.{given, text_or}
use agent_delegation_network.RuntimeSecurity.Mode.{RuntimeMode, live, resolve_runtime_mode}

unfoldable pub gateway_context_configured : Option String → Option String → Option String → Bool
gateway_context_configured key key_id build = given key || given key_id || given build

pub record WorkerAuthorizationContext : Type 0 where
  pub runtime_mode : RuntimeMode
  pub require_tee_authorization : Bool
  pub expected_gateway_public_key_hex : String
  pub expected_gateway_key_id : String
  pub expected_build_config_id : String

-- `bool(require_tee_authorization)`
abbrev pub demanded : Option Bool → Bool
demanded none = false
demanded (some b) = b

abbrev is_live : RuntimeMode → Bool
is_live live = true
is_live _ = false

unfoldable pub from_trusted_config :
    Option (List ℕ)
    → Option String
    → Option String
    → Option String
    → Option Bool
    → Result WorkerAuthorizationContext
unfolding gateway_context_configured
from_trusted_config env key key_id build require = do
  mode ← resolve_runtime_mode none env
  ok (record {
    runtime_mode = mode;
    require_tee_authorization =
        is_live mode || gateway_context_configured key key_id build || demanded require;
    expected_gateway_public_key_hex = text_or "" key;
    expected_gateway_key_id = text_or "" key_id;
    expected_build_config_id = text_or "" build;
  })

-- A context waives the gateway receipt only outside live mode, with none of the three gateway values
-- configured and with no demand by the caller; its mode is the resolved one.
pub waived_only_outside_live :
    (env : Option (List ℕ)) (key key_id build : Option String) (require : Option Bool)
    (x : WorkerAuthorizationContext)
    → from_trusted_config env key key_id build require ≡ ok x
    → x.require_tee_authorization ≡ false
    → (resolve_runtime_mode none env ≡ ok x.runtime_mode)
      × (x.runtime_mode ≢ live)
      × (given key ≡ false)
      × (given key_id ≡ false)
      × (given build ≡ false)
      × (demanded require ≡ false)
unfolding from_trusted_config
waived_only_outside_live env key key_id build require x h w =
    elim (Result-cases (resolve_runtime_mode none env)) [
      | inr (e, p) ↦ cc (rw p at h)
      | inl (m, p) ↦ ground arith
    ]

-- With the variable unset the mode is live and the receipt is required, whatever the caller passes.
pub unset_mode_requires :
    (key key_id build : Option String) (require : Option Bool)
    → (x : WorkerAuthorizationContext) × (from_trusted_config none key key_id build require ≡ ok x)
      × (x.runtime_mode ≡ live)
      × (x.require_tee_authorization ≡ true)
unfolding from_trusted_config resolve_runtime_mode
unset_mode_requires key key_id build require = (_, refl, refl, refl)
