-- ===== src/Release/Paging.antt =====
-- The lists that GitHub returns page by page: `list_workflow_run_artifacts` and
-- `list_workflow_runs_for_head` of scripts/verify_release_remote.py.
use agent_delegation_network.Json.{Items, Json, arr, cons, get_or, nil, num}
use agent_delegation_network.Prelude.{
  Bool, List, Option, Result, Result-cases, String, [], arith, false, if◌then◌else◌, inl, inr, leb,
  length, length-append, none, ok, raised, refl, runtime_error, some, suc, true, zero, ℕ, ◌++◌, ◌+◌,
  ◌<◌, ◌>>=◌, ◌∷◌, ◌≡◌, ◌≤◌,
}
use agent_delegation_network.Protocol.Messages.{expect_dict}

unfoldable pub items_list : Items → List Json
items_list nil = []
items_list (cons v xs) = v ∷ items_list xs

-- Whether the loop ends: the number of entries is known, and so many were found.
abbrev pub has_all_entries : Option ℕ → List Json → Bool
has_all_entries none found = false
has_all_entries (some t) found = leb t (length found)

-- `fetch n` is page `n`, `to_int` is `int(v)` where that is not negative, `key` names the entries, and
-- `malformed` is the message where they are no list.
module _ (fetch : ℕ → Result Json) (to_int : Json → Result ℕ) (key malformed : String) where
  unfoldable pub page_entries : Json → Result (List Json)
  unfolding items_list
  page_entries (arr xs) = ok (items_list xs)
  page_entries _ = raised (runtime_error malformed)

  -- The total count and the entries of a page.
  unfoldable pub read_page : ℕ → Result (ℕ × List Json)
  unfolding page_entries get_or
  read_page n = do
    v ← fetch n
    payload ← expect_dict v
    total ← to_int (get_or (num 0) "total_count" payload)
    entries ← page_entries (get_or (arr nil) key payload)
    ok (total, entries)

  -- `none` where the fuel, a number of pages, runs out.
  unfoldable pub list_pages : ℕ → ℕ → List Json → Option ℕ → Option (Result (List Json))
  unfolding read_page
  list_pages zero page found total = if has_all_entries total found then some (ok found) else none
  list_pages (suc f) page found total =
      let next : Option (Result (List Json)) = elim (read_page page) [
        | raised e ↦ some (raised e)
        | ok (announced, []) ↦ some (ok found)
        | ok (announced, v ∷ vs) ↦ list_pages f (suc page) (found ++ (v ∷ vs)) (some announced)
      ] in
      if has_all_entries total found then some (ok found) else next

abbrev Ends : Option (Result (List Json)) → Type 0
Ends r = (out : Result (List Json)) × (r ≡ some out)

Ends-if :
    (b : Bool) (r s : Option (Result (List Json))) → Ends r → Ends s → Ends (if b then r else s)
Ends-if true r s h k = h
Ends-if false r s h k = k

module _ (fetch : ℕ → Result Json) (to_int : Json → Result ℕ) (key malformed : String) (bound : ℕ)
    (few : (n total : ℕ) (entries : List Json)
      → read_page fetch to_int key malformed n ≡ ok (total, entries)
      → total ≤ bound) where
  later_pages :
      (f page : ℕ) (found : List Json) (total : ℕ)
      → total ≤ bound
      → bound < f + length found
      → Ends (list_pages fetch to_int key malformed f page found (some total))
  unfolding list_pages
  later_pages zero page found total h enough = (ok found, ground arith)
  later_pages (suc f) page found total h enough =
      Ends-if (has_all_entries (some total) found) (some (ok found)) _ (ok found, refl)
        (elim (Result-cases (read_page fetch to_int key malformed page)) [
          | inr (e, is_e) ↦ rw is_e (raised e, refl)
          | inl ((announced, []), is_page) ↦ rw is_page (ok found, refl)
          | inl ((announced, v ∷ vs), is_page) ↦ rw is_page (
              later_pages f (suc page) (found ++ (v ∷ vs)) announced
                (few page announced (v ∷ vs) is_page) (omega (arith, length-append found (v ∷ vs))))
        ])

  -- If no page announces more than `bound` entries, the loop ends after at most `bound + 1` pages.
  pub list_pages-Ends : Ends (list_pages fetch to_int key malformed (suc bound) 1 [] none)
  unfolding list_pages
  list_pages-Ends = elim (Result-cases (read_page fetch to_int key malformed 1)) [
    | inr (e, is_e) ↦ rw is_e (raised e, refl)
    | inl ((announced, []), is_page) ↦ rw is_page (ok [], refl)
    | inl ((announced, v ∷ vs), is_page) ↦
        rw is_page
          (later_pages bound 2 (v ∷ vs) announced (few 1 announced (v ∷ vs) is_page) (omega arith))
  ]
