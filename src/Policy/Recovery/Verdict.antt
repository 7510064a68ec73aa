-- ===== src/Policy/Recovery/Verdict.antt =====
-- What infra/terraform/scripts/p6_plan_policy.py lets through.
use technical_test_mitus_ai.Prelude.{
  codes_iff, ℕ, ◌≤◌, String, ◌≡◌, refl, ◌↔◌, inl, inr, true, Option, none, some, List, [], ◌∷◌,
  ◌++◌, map, ◌==◌, nat_eq, string_eq, list_eq, list_beq, text_eq_iff, codes, is_empty, is_some, All,
  Bool-cases, arith,
}
use technical_test_mitus_ai.Policy.Address.{ResourceChange}
use technical_test_mitus_ai.Policy.Recovery.{
  Counts, empty_review, reviewed_action, p6_allowlist, review_changes, sort_by, duplicates, missing,
  is_seen, is_expected, check_totals, check_hash, evaluate, is_ok,
}
use technical_test_mitus_ai.Policy.Recovery.Seen.{
  count_of, Tidy, Single, All-sort_by, duplicates_iff, missing_iff, is_seen-count_of,
  Single-count_of, count_of-is_seen, count_of-Single,
}
use technical_test_mitus_ai.Policy.Recovery.Exact.{Expected, OnceEach, Exact, Matches}
use technical_test_mitus_ai.Policy.Recovery.Loop.{is_empty-++, loop-clean_iff, loop-seen, loop-Tidy}
use technical_test_mitus_ai.Policy.Recovery.Sums.{Exact-is_expected}

All-map :
    {A B : Type 0} (f : A → B) (P : B → Type 0) (xs : List A)
    → All P (map f xs) ↔ All (λ a. P (f a)) xs
All-map f P [] = (λ h. h, λ h. h)
All-map f P (x ∷ xs) = (λ h. (h.0, (All-map f P xs).0 h.1), λ h. (h.0, (All-map f P xs).1 h.1))

-- What holds of each key holds of each resource that is listed.
listed_has :
    (P : List ℕ → Type 0) (k : List ℕ) (allowlist : List (List ℕ × String))
    → All (λ entry. P entry.0) allowlist
    → is_some (reviewed_action k allowlist) ≡ true
    → P k
listed_has P k [] h listed = cc
listed_has P k ((key, action) ∷ allowlist) h listed = elim (Bool-cases (key == k)) [
  | inl here ↦ rw (← (codes_iff key k).0 here) h.0
  | inr away ↦ listed_has P k allowlist h.1 (rw away at listed)
]

once_each :
    (seen : List (List ℕ × ℕ)) (keys : List (List ℕ × String))
    → Tidy seen
    → All Single seen
    → All (λ entry. is_some (reviewed_action entry.0 p6_allowlist) ≡ true) keys
    → All (λ entry. is_seen entry.0 seen ≡ true) keys
    → All (λ entry. count_of entry.0 seen ≡ 1) keys
once_each seen [] tidy single listed there = tt
once_each seen ((k, action) ∷ keys) tidy single listed there = (
  omega (arith, is_seen-count_of k seen tidy there.0, Single-count_of k seen listed.0 single),
  once_each seen keys tidy single listed.1 there.1,
)

each_there :
    (seen : List (List ℕ × ℕ)) (keys : List (List ℕ × String))
    → All (λ entry. count_of entry.0 seen ≡ 1) keys
    → All (λ entry. is_seen entry.0 seen ≡ true) keys
each_there seen [] h = tt
each_there seen ((k, action) ∷ keys) h =
    (count_of-is_seen k seen (omega (arith, h.0)), each_there seen keys h.1)

each_known : All (λ entry. is_some (reviewed_action entry.0 p6_allowlist) ≡ true) p6_allowlist
unfolding list_beq
each_known = (refl, (refl, (refl, (refl, (refl, (refl, (refl, (refl, (refl, (refl, tt))))))))))

at_most_one : (n : ℕ) → n ≡ 1 → n ≤ 1
at_most_one n h = omega arith

-- Rule 3 passes exactly when the dict counts each allowlisted key once.
once_iff :
    (seen : List (List ℕ × ℕ))
    → Tidy seen
    → (All Single seen × All (λ entry. is_seen entry.0 seen ≡ true) p6_allowlist)
      ↔ All (λ entry. count_of entry.0 seen ≡ 1) p6_allowlist
once_iff seen tidy = (
  λ h. once_each seen p6_allowlist tidy h.0 each_known h.1,
  λ h. (
    count_of-Single seen tidy (λ k listed.
        at_most_one (count_of k seen)
          (listed_has (λ key. count_of key seen ≡ 1) k p6_allowlist h listed)),
    each_there seen p6_allowlist h,
  ),
)

times_iff :
    (plan : List ResourceChange) (keys : List (List ℕ × String))
    → All Expected plan
    → All (λ entry. count_of entry.0 (review_changes plan empty_review).seen ≡ 1) keys
      ↔ OnceEach keys plan
times_iff plan [] fine = (λ h. h, λ h. h)
times_iff plan ((k, action) ∷ keys) fine =
    let counted = loop-seen k plan empty_review fine in
    let rest = times_iff plan keys fine in
    (λ h. (omega (arith, counted, h.0), rest.0 h.1), λ h. (omega (arith, counted, h.0), rest.1 h.1))

check_totals_iff : (c : Counts) → (is_empty (check_totals c) ≡ true) ↔ (is_expected c ≡ true)
check_totals_iff c = elim (Bool-cases (is_expected c)) [
  | inl right ↦ rw right (λ h. refl, λ h. refl)
  | inr wrong ↦ rw wrong (λ h. cc, λ h. cc)
]

check_hash_iff :
    (require_hash : Option String) (found : String)
    → (is_empty (check_hash require_hash found) ≡ true) ↔ Matches require_hash found
check_hash_iff none found = (λ h. tt, λ h. refl)
check_hash_iff (some expected) found = elim (Bool-cases (found == expected)) [
  | inl same ↦ rw same (λ h. (text_eq_iff found expected).0 same, λ h. refl)
  | inr other ↦ rw other (λ h. cc, λ h. cc (other, (text_eq_iff found expected).1 h))
]

abbrev Kept : List (List ℕ × ℕ) → List ℕ → Type 0
Kept seen k = is_seen k seen ≡ true

missing-allowlist_iff :
    (seen : List (List ℕ × ℕ))
    → (is_empty (missing (sort_by (λ k. k) (map (λ entry. entry.0) p6_allowlist)) seen) ≡ true)
      ↔ All (λ entry. Kept seen entry.0) p6_allowlist
missing-allowlist_iff seen =
    let keys = map (λ entry. entry.0) p6_allowlist in
    let listed = missing_iff (sort_by (λ k. k) keys) seen in
    let order = All-sort_by (λ k. k) (Kept seen) keys in
    let named = All-map (λ entry. entry.0) (Kept seen) p6_allowlist in
    (λ h. named.0 (order.0 (listed.0 h)), λ h. listed.1 (order.1 (named.1 h)))

sorted-duplicates_iff :
    (seen : List (List ℕ × ℕ))
    → (is_empty (duplicates (sort_by (λ s. s.0) seen)) ≡ true) ↔ All Single seen
sorted-duplicates_iff seen =
    let apart = duplicates_iff (sort_by (λ s. s.0) seen) in
    let order = All-sort_by (λ s. s.0) Single seen in
    (λ h. order.0 (apart.0 h), λ h. apart.1 (order.1 h))

module _ (hash_of : List (String × List String) → String) where
  -- The result has no violation exactly when the plan, no-ops and reads left out, changes each
  -- allowlisted resource once, by its reviewed action alone, and changes nothing else, and, where a
  -- digest is required, the digest of the sorted summary is that one.
  pub evaluate_iff :
      (require_hash : Option String) (plan : List ResourceChange)
      → (is_ok hash_of (evaluate hash_of require_hash plan) ≡ true)
        ↔ (Exact plan × Matches require_hash (evaluate hash_of require_hash plan).summary_hash)
  unfolding evaluate
  evaluate_iff require_hash plan =
      let t = review_changes plan empty_review in
      let found = hash_of (sort_by (λ s. codes s.0) t.summary) in
      let twice = duplicates (sort_by (λ s. s.0) t.seen) in
      let gone = missing (sort_by (λ k. k) (map (λ entry. entry.0) p6_allowlist)) t.seen in
      let hash = check_hash require_hash found in
      let tidy = loop-Tidy plan empty_review tt in
      let split_0 = is_empty-++ t.violations (twice ++ (gone ++ (check_totals t.counts ++ hash))) in
      let split_1 = is_empty-++ twice (gone ++ (check_totals t.counts ++ hash)) in
      let split_2 = is_empty-++ gone (check_totals t.counts ++ hash) in
      let split_3 = is_empty-++ (check_totals t.counts) hash in
      (
        λ h.
            let first = split_0.0 h in
            let second = split_1.0 first.1 in
            let third = split_2.0 second.1 in
            let fine = ((loop-clean_iff plan empty_review).0 first.0).1 in
            let single = (sorted-duplicates_iff t.seen).0 second.0 in
            let there = (missing-allowlist_iff t.seen).0 third.0 in
            (
              (
                fine,
                (times_iff plan p6_allowlist fine).0 ((once_iff t.seen tidy).0 (single, there)),
              ),
              (check_hash_iff require_hash found).0 ((split_3.0 third.1).1),
            ),
        λ h.
            let rule_3 = (once_iff t.seen tidy).1 ((times_iff plan p6_allowlist h.0.0).1 h.0.1) in
            split_0.1 (
              (loop-clean_iff plan empty_review).1 (refl, h.0.0),
              split_1.1 (
                (sorted-duplicates_iff t.seen).1 rule_3.0,
                split_2.1 (
                  (missing-allowlist_iff t.seen).1 rule_3.1,
                  split_3.1 (
                    (check_totals_iff t.counts).1 (Exact-is_expected plan h.0),
                    (check_hash_iff require_hash found).1 h.1,
                  ),
                ),
              ),
            ),
      )
