-- ===== src/Verifier/Retention.antt =====
-- The cache stays within its bound, its set and its queue alike (src/result_verifier.py).
use agent_delegation_network.Json.{Json}
use agent_delegation_network.Json.Keys.{Key, same_key, same_key_iff}
use agent_delegation_network.Prelude.{
  Bool, Bool-cases, List, Result, [], arith, false, inl, inr, leb, length, ltb, not, ok, raised,
  refl, true, ℕ, ◌&&◌, ◌++◌, ◌+◌, ◌||◌, ◌∷◌, ◌≡◌, ◌≤◌,
}
use agent_delegation_network.Verifier.Nonces.{
  Cache, Seen, consume_key, consume_nonce_within, consume_result_nonce, drop_excess, drop_old,
  forget, is_seen, key_of, max_seen_nonces, prune_seen_nonces, seen_nonce_ttl,
}

unfoldable pub is_queued : Key → List Seen → Bool
is_queued k [] = false
is_queued k (e ∷ order) = same_key e.nonce k || is_queued k order

unfoldable pub IsDistinct : List Key → Type 0
IsDistinct [] = Unit
IsDistinct (k ∷ seen) = (is_seen k seen ≡ false) × IsDistinct seen

unfoldable pub IsCovered : List Key → List Seen → Type 0
IsCovered seen order = (k : Key) → is_seen k seen ≡ true → is_queued k order ≡ true

-- The set holds no nonce twice, and every nonce of the set is in the queue.
pub record IsMatched (q : Cache) : Type 0 where
  pub distinct : IsDistinct q.seen
  pub covered : IsCovered q.seen q.order

is_seen-forget :
    (j k : Key) (seen : List Key)
    → is_seen j (forget k seen) ≡ (is_seen j seen && not (same_key k j))
unfolding is_seen forget
is_seen-forget j k [] = refl
is_seen-forget j k (i ∷ seen) =
    ground (arith, is_seen-forget j k seen, same_key_iff i k, same_key_iff i j, same_key_iff k j)

forget-IsDistinct : (k : Key) (seen : List Key) → IsDistinct seen → IsDistinct (forget k seen)
unfolding forget IsDistinct
forget-IsDistinct k [] h = tt
forget-IsDistinct k (i ∷ seen) h =
    ground (arith, is_seen-forget i k seen, forget-IsDistinct k seen h.1)

forget_absent : (k : Key) (seen : List Key) → is_seen k seen ≡ false → forget k seen ≡ seen
unfolding forget is_seen
forget_absent k [] h = refl
forget_absent k (i ∷ seen) h = ground (arith, forget_absent k seen)

-- Of distinct nonces, forgetting one removes at most one.
length-forget :
    (k : Key) (seen : List Key) → IsDistinct seen → length seen ≤ length (forget k seen) + 1
unfolding forget IsDistinct
length-forget k [] h = omega arith
length-forget k (i ∷ seen) h =
    ground (arith, same_key_iff i k, length-forget k seen h.1, forget_absent k seen)

forget-IsCovered :
    (e : Seen) (seen : List Key) (order : List Seen)
    → IsCovered seen (e ∷ order)
    → IsCovered (forget e.nonce seen) order
unfolding IsCovered is_queued
forget-IsCovered e seen order h k p = ground (arith, is_seen-forget k e.nonce seen, h k)

-- The set is no longer than the queue.
length-covered :
    (seen : List Key) (order : List Seen)
    → IsDistinct seen
    → IsCovered seen order
    → length seen ≤ length order
length-covered [] [] d h = omega arith
length-covered (k ∷ seen) [] d h =
    absurd (unfold IsCovered is_queued is_seen in ground (arith, h k, same_key_iff k k))
length-covered seen (e ∷ order) d h = omega (
  arith,
  length-forget e.nonce seen d,
  length-covered (forget e.nonce seen) order (forget-IsDistinct e.nonce seen d)
      (forget-IsCovered e seen order h),
)

drop_old-IsMatched :
    (now : ℕ) (seen : List Key) (order : List Seen)
    → IsDistinct seen
    → IsCovered seen order
    → IsMatched (drop_old now seen order)
unfolding drop_old
drop_old-IsMatched now seen [] d h = record { distinct = d; covered = h }
drop_old-IsMatched now seen (e ∷ order) d h =
    elim (Bool-cases (leb (e.created_at + seen_nonce_ttl) now)) [
      | inl p ↦ rw p (
          drop_old-IsMatched now (forget e.nonce seen) order (forget-IsDistinct e.nonce seen d)
            (forget-IsCovered e seen order h))
      | inr p ↦ rw p (record { distinct = d; covered = h })
    ]

drop_excess-IsMatched :
    (limit : ℕ) (seen : List Key) (order : List Seen)
    → IsDistinct seen
    → IsCovered seen order
    → IsMatched (drop_excess limit seen order)
unfolding drop_excess
drop_excess-IsMatched limit seen [] d h = record { distinct = d; covered = h }
drop_excess-IsMatched limit seen (e ∷ order) d h =
    elim (Bool-cases (ltb limit (length (e ∷ order)))) [
      | inl p ↦ rw p (
          drop_excess-IsMatched limit (forget e.nonce seen) order (forget-IsDistinct e.nonce seen d)
            (forget-IsCovered e seen order h))
      | inr p ↦ rw p (record { distinct = d; covered = h })
    ]

length-drop_excess :
    (limit : ℕ) (seen : List Key) (order : List Seen)
    → length (drop_excess limit seen order).order ≤ limit
unfolding drop_excess
length-drop_excess limit seen [] = omega arith
length-drop_excess limit seen (e ∷ order) =
    ground (arith, length-drop_excess limit (forget e.nonce seen) order)

IsBounded : ℕ → Cache → Type 0
IsBounded limit q = IsMatched q × (length q.order ≤ limit) × (length q.seen ≤ limit)

prune-IsBounded :
    (limit now : ℕ) (q : Cache) → IsMatched q → IsBounded limit (prune_seen_nonces limit now q)
unfolding prune_seen_nonces IsBounded
prune-IsBounded limit now q m =
    let young = drop_old now q.seen q.order in
    let ym = drop_old-IsMatched now q.seen q.order m.distinct m.covered in
    let kept = drop_excess-IsMatched limit young.seen young.order ym.distinct ym.covered in
    let n = length-drop_excess limit young.seen young.order in
    (kept, n, omega (arith, length-covered _ _ kept.distinct kept.covered))

is_queued-append :
    (j : Key) (order : List Seen) (e : Seen)
    → is_queued j (order ++ e ∷ []) ≡ (is_queued j order || same_key e.nonce j)
unfolding is_queued
is_queued-append j [] e = ground arith
is_queued-append j (d ∷ order) e = ground (arith, is_queued-append j order e)

remember-IsMatched :
    (k : Key) (now : ℕ) (q : Cache)
    → IsMatched q
    → is_seen k q.seen ≡ false
    → IsMatched (record {
      seen = k ∷ q.seen;
      order = q.order ++ record { nonce = k; created_at = now } ∷ [];
    })
unfolding IsDistinct IsCovered is_seen
remember-IsMatched k now q m new = record {
  distinct = (new, m.distinct);
  covered = λ j p.
      ground
        (arith, is_queued-append j q.order (record { nonce = k; created_at = now }), m.covered j);
}

-- In a cache whose set holds no nonce twice and only nonces of its queue (the empty cache is one),
-- whatever nonce is given and whether it is accepted, the set and the queue hold at most 4096 nonces
-- each afterwards, and the cache is again such a cache.
pub consume_result_nonce_bounded :
    (now : ℕ) (nonce : Json) (q : Cache)
    → IsMatched q
    → let q' = (consume_result_nonce now nonce q).1 in
      IsMatched q' × (length q'.order ≤ max_seen_nonces) × (length q'.seen ≤ max_seen_nonces)
unfolding consume_result_nonce consume_nonce_within consume_key IsBounded
consume_result_nonce_bounded now nonce q m = bounded (key_of nonce)
  where
    pruned : IsBounded max_seen_nonces (prune_seen_nonces max_seen_nonces now q)
    pruned = prune-IsBounded max_seen_nonces now q m

    bounded :
        (r : Result Key)
        → IsBounded max_seen_nonces
            (consume_key max_seen_nonces now r (prune_seen_nonces max_seen_nonces now q)).1
    bounded (raised x) = pruned
    bounded (ok k) =
        let q' = prune_seen_nonces max_seen_nonces now q in
        elim (Bool-cases (is_seen k q'.seen)) [
          | inl old ↦ rw old pruned
          | inr new ↦ rw new (
              prune-IsBounded max_seen_nonces now _
                (remember-IsMatched k now q' (unfold IsBounded in pruned.0) new))
        ]
