-- ===== src/ReplayLedger/Integrity.antt =====
-- The integrity code of a row (src/replay_ledger.py): what is written verifies, and a row that does
-- not verify stops every call.
use agent_delegation_network.Crypto.{Crypto}
use agent_delegation_network.Prelude.{
  All, Bool-cases, Option, String, [], arith, eq_iff, false, if◌then◌else◌, inl, inr, none, ok,
  raise_if, raised, refl, runtime_error, some, str_ne, subst, true, ◌==◌, ◌>>=◌, ◌↔◌, ◌∷◌, ◌≡◌, ◌≢◌,
  ◌⊎◌,
}
use agent_delegation_network.ReplayLedger.Entry.{
  Entry, code_differs, compute_integrity_mac, given, stable_record_payload, verify_integrity,
}
use agent_delegation_network.ReplayLedger.Execution.{write_record}
use agent_delegation_network.ReplayLedger.Table.{Table, select, upsert}

-- A secret that `bytes.fromhex` reads; a digest is never the empty text.
abbrev pub IsUsable : Crypto → Option String → Type 0
IsUsable c none = Unit
IsUsable c (some secret) =
    (message : String) → (code : String) × (c.hmac_sha256 secret message ≡ some code) × (code ≢ "")

-- The row's code is the one that its other columns have under the secret.
abbrev pub IsSealed : Crypto → Option String → Entry → Type 0
IsSealed c secret e = verify_integrity c e secret ≡ ok tt

abbrev pub AllSealed : Crypto → Option String → Table → Type 0
AllSealed c secret db = All (IsSealed c secret) db

module _ (c : Crypto) where
  -- The code of a row covers every other column and not itself.
  pub compute_integrity_mac-code :
      (e : Entry) (code secret : Option String)
      → compute_integrity_mac c (record e { integrity_mac = code }) secret
        ≡ compute_integrity_mac c e secret
  unfolding compute_integrity_mac stable_record_payload
  compute_integrity_mac-code e code none = refl
  compute_integrity_mac-code e code (some secret) = refl

  fresh_code :
      (e : Entry) (secret : String)
      → IsUsable c (some secret)
      → (secret == "") ≡ false
      → (code : String) × (compute_integrity_mac c e (some secret) ≡ ok (some code)) × (code ≢ "")
  unfolding compute_integrity_mac
  fresh_code e secret u ne =
      let d = u (c.dumps (stable_record_payload e)) in (d.0, rw (ne, d.1), d.2)

  equal_codes : (code : String) → code ≢ "" → code_differs (some code) (some code) ≡ false
  equal_codes code ne = ground (arith, eq_iff code "", eq_iff code code)

  -- A written row verifies.
  pub write-IsSealed :
      (secret : Option String) (e : Entry) (db : Table)
      → IsUsable c secret
      → (code : Option String) × (write_record c secret e db
          ≡ ok (upsert (record e { integrity_mac = code }) db))
        × IsSealed c secret (record e { integrity_mac = code })
  unfolding write_record verify_integrity
  write-IsSealed none e db u = (none, unfold compute_integrity_mac in refl, refl)
  write-IsSealed (some secret) e db u = elim (Bool-cases (secret == "")) [
    | inl empty ↦ (none, unfold compute_integrity_mac in rw empty, rw empty)
    | inr ne ↦
        let (code, computed, nonempty) = fresh_code e secret u ne in
        (
          some code,
          rw computed,
          rw (ne, compute_integrity_mac-code e (some code) (some secret), computed)
              (rw (equal_codes code nonempty)),
        )
  ]

  -- With a secret in force, a row verifies exactly if its code is the digest of its other columns.
  pub verify_integrity_iff :
      (e : Entry) (secret : String)
      → IsUsable c (some secret)
      → secret ≢ ""
      → (verify_integrity c e (some secret) ≡ ok tt)
        ↔ (e.integrity_mac ≡ c.hmac_sha256 secret (c.dumps (stable_record_payload e)))
  unfolding verify_integrity compute_integrity_mac
  verify_integrity_iff e secret u ne =
      let d = u (c.dumps (stable_record_payload e)) in verified e.integrity_mac d.0 d.1 d.2
    where
      verified :
          (actual : Option String) (code : String)
          → c.hmac_sha256 secret (c.dumps (stable_record_payload e)) ≡ some code
          → code ≢ ""
          → ((if given (some secret)
                then (compute_integrity_mac c e (some secret) >>= λ expected.
                    raise_if
                      (code_differs actual expected)
                      (runtime_error "Replay ledger integrity check failed"))
                else ok tt)
              ≡ ok tt)
            ↔ (actual ≡ c.hmac_sha256 secret (c.dumps (stable_record_payload e)))
      verified none code w n = rw (str_ne secret "" ne, w) (λ h. cc, λ h. cc)
      verified (some actual) code w n =
          rw (str_ne secret "" ne, w)
            (
              λ h. ground (arith, eq_iff actual code, eq_iff actual "", eq_iff code ""),
              λ h. ground (arith, eq_iff actual code, eq_iff actual "", eq_iff code ""),
            )

  -- Under such a secret, a row verifies or its verification raises the integrity failure.
  pub verify_integrity-cases :
      (e : Entry) (secret : String)
      → IsUsable c (some secret)
      → secret ≢ ""
      → (verify_integrity c e (some secret) ≡ ok tt)
        ⊎ (verify_integrity c e (some secret)
            ≡ raised (runtime_error "Replay ledger integrity check failed"))
  unfolding verify_integrity compute_integrity_mac
  verify_integrity-cases e secret u ne =
      let (code, w, n) = u (c.dumps (stable_record_payload e)) in
      elim (Bool-cases (code_differs e.integrity_mac (some code))) [
        | inl d ↦ inr (rw (str_ne secret "" ne, w) (rw d))
        | inr d ↦ inl (rw (str_ne secret "" ne, w) (rw d))
      ]

  first_row :
      (f : Entry) (k : String) (db : Table) (e : Entry)
      → (f.replay_key == k) ≡ true
      → select k (f ∷ db) ≡ some e
      → f ≡ e
  unfolding select
  first_row f k db e eq p = ground arith

  later_row :
      (f : Entry) (k : String) (db : Table) (e : Entry)
      → (f.replay_key == k) ≡ false
      → select k (f ∷ db) ≡ some e
      → select k db ≡ some e
  unfolding select
  later_row f k db e ne p = ground arith

  pub select-AllSealed :
      (secret : Option String) (k : String) (db : Table) (e : Entry)
      → AllSealed c secret db
      → select k db ≡ some e
      → IsSealed c secret e
  unfolding select
  select-AllSealed secret k [] e h p = cc
  select-AllSealed secret k (f ∷ db) e h p = elim (Bool-cases (f.replay_key == k)) [
    | inl eq ↦ let same : f ≡ e = first_row f k db e eq p in subst (IsSealed c secret) same h.0
    | inr ne ↦ select-AllSealed secret k db e h.1 (later_row f k db e ne p)
  ]
