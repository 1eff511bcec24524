-- ===== src/Verifier/Nonces.antt =====
-- The nonce cache of src/result_verifier.py: `_seen`, `_seen_order` and the functions on them. Times
-- are readings of the monotonic clock.
use agent_delegation_network.Json.{Json, truthy}
use agent_delegation_network.Json.Keys.{Key, hash_key, same_key}
use agent_delegation_network.Prelude.{
  Bool, List, Result, [], false, if◌then◌else◌, leb, length, ltb, not, ok, raised, runtime_error, ℕ,
  ◌++◌, ◌+◌, ◌||◌, ◌∷◌,
}
use agent_delegation_network.ReplayLedger.Entry.{seconds}

abbrev pub max_seen_nonces : ℕ
max_seen_nonces = 4096

abbrev pub seen_nonce_ttl : ℕ
seen_nonce_ttl = seconds 900

-- A nonce and the time at which it was seen.
pub record Seen : Type 0 where
  pub nonce : Key
  pub created_at : ℕ

pub record Cache : Type 0 where
  pub seen : List Key
  pub order : List Seen

unfoldable pub is_seen : Key → List Key → Bool
is_seen k [] = false
is_seen k (j ∷ s) = same_key j k || is_seen k s

unfoldable pub forget : Key → List Key → List Key
forget k [] = []
forget k (j ∷ s) = let rest = forget k s in if same_key j k then rest else j ∷ rest

-- `while _seen_order and _seen_order[0][1] <= now - SEEN_NONCE_TTL_SECONDS`
unfoldable pub drop_old : ℕ → List Key → List Seen → Cache
drop_old now seen [] = record { seen = seen; order = [] }
drop_old now seen (e ∷ order) =
    let rest = drop_old now (forget e.nonce seen) order in
    if leb (e.created_at + seen_nonce_ttl) now
    then rest
    else record { seen = seen; order = e ∷ order }

-- `while len(_seen_order) > MAX_SEEN_NONCES`
unfoldable pub drop_excess : ℕ → List Key → List Seen → Cache
drop_excess limit seen [] = record { seen = seen; order = [] }
drop_excess limit seen (e ∷ order) =
    let rest = drop_excess limit (forget e.nonce seen) order in
    if ltb limit (length (e ∷ order)) then rest else record { seen = seen; order = e ∷ order }

unfoldable pub prune_seen_nonces : ℕ → ℕ → Cache → Cache
unfolding drop_old drop_excess
prune_seen_nonces limit now q =
    let young = drop_old now q.seen q.order in drop_excess limit young.seen young.order

-- `not nonce` raises first; a list or a dict cannot be looked up in a set.
unfoldable pub key_of : Json → Result Key
key_of nonce =
    if not (truthy nonce)
    then raised (runtime_error "result nonce missing or already consumed")
    else hash_key nonce

abbrev pub remember : ℕ → ℕ → Key → Cache → Cache
remember limit now k q =
    prune_seen_nonces limit now
      (record { seen = k ∷ q.seen; order = q.order ++ record { nonce = k; created_at = now } ∷ [] })

-- After the first pruning.
unfoldable pub consume_key : ℕ → ℕ → Result Key → Cache → Result (Unit {0}) × Cache
consume_key limit now (raised x) q = (raised x, q)
consume_key limit now (ok k) q =
    if is_seen k q.seen
    then (raised (runtime_error "result nonce missing or already consumed"), q)
    else (ok tt, remember limit now k q)

-- `_consume_result_nonce`, whose bound is `MAX_SEEN_NONCES`
unfoldable pub consume_nonce_within : ℕ → ℕ → Json → Cache → Result (Unit {0}) × Cache
unfolding consume_key
consume_nonce_within limit now nonce q =
    consume_key limit now (key_of nonce) (prune_seen_nonces limit now q)

unfoldable pub consume_result_nonce : ℕ → Json → Cache → Result (Unit {0}) × Cache
unfolding consume_nonce_within
consume_result_nonce = consume_nonce_within max_seen_nonces
