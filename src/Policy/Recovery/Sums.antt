-- ===== src/Policy/Recovery/Sums.antt =====
-- The four totals of `evaluate` in infra/terraform/scripts/p6_plan_policy.py.
use technical_test_mitus_ai.Prelude.{
  ℕ, ◌+◌, String, ◌≡◌, refl, inl, inr, true, false, some, List, [], ◌∷◌, ◌==◌, nat_eq, string_eq,
  list_eq, list_beq, if◌then◌else◌, contains, Distinct, All, Bool-cases, arith,
}
use technical_test_mitus_ai.Policy.Address.{ResourceChange, actions_of, is_noop, only}
use technical_test_mitus_ai.Policy.Recovery.{
  Counts, Review, empty_review, reviewed_action, p6_allowlist, count_actions, review_change,
  review_changes, is_expected,
}
use technical_test_mitus_ai.Policy.Recovery.Exact.{bare, Expected, OnceEach, Exact}
use technical_test_mitus_ai.Policy.Recovery.Totals.{
  Either, reviewed-Either, tally, keys, tally-step, tally-quiet, hits_of,
}

-- What is counted so far, and what the rest of a plan adds
abbrev Ends : Counts → Counts → List ResourceChange → Type 0
Ends c later plan =
    (later.add ≡ c.add + tally "create" p6_allowlist plan)
    × (later.change ≡ c.change + tally "update" p6_allowlist plan)
    × (later.destroy ≡ c.destroy)
    × (later.replace ≡ c.replace)

keys-Distinct : Distinct (keys p6_allowlist)
unfolding keys contains list_beq
keys-Distinct = (refl, (refl, (refl, (refl, (refl, (refl, (refl, (refl, (refl, (refl, tt))))))))))

tally-reviewed :
    (name action : String) (rc : ResourceChange) (plan : List ResourceChange)
    → is_noop (actions_of rc) ≡ false
    → reviewed_action (bare rc) p6_allowlist ≡ some action
    → tally name p6_allowlist (rc ∷ plan)
      ≡ (if action == name then 1 else 0) + tally name p6_allowlist plan
tally-reviewed name action rc plan acts listed =
    rw (← hits_of name action (bare rc) p6_allowlist keys-Distinct listed)
      (tally-step name p6_allowlist rc plan acts)

count_actions-Ends :
    (action : String) (c later : Counts) (a b : ℕ)
    → Either action
    → (later.add ≡ (count_actions (action ∷ []) c).add + a)
      × (later.change ≡ (count_actions (action ∷ []) c).change + b)
      × (later.destroy ≡ (count_actions (action ∷ []) c).destroy)
      × (later.replace ≡ (count_actions (action ∷ []) c).replace)
    → (later.add ≡ c.add + ((if action == "create" then 1 else 0) + a))
      × (later.change ≡ c.change + ((if action == "update" then 1 else 0) + b))
      × (later.destroy ≡ c.destroy)
      × (later.replace ≡ c.replace)
unfolding only contains
count_actions-Ends action c later a b (inl created) h =
    let g = rw created at h in rw created (omega (arith, g.0), omega (arith, g.1), g.2, g.3)
count_actions-Ends action c later a b (inr updated) h =
    let g = rw updated at h in rw updated (omega (arith, g.0), omega (arith, g.1), g.2, g.3)

step-Ends :
    (rc : ResourceChange) (plan : List ResourceChange) (t : Review) (later : Counts)
    → Expected rc
    → Ends (review_change rc t).counts later plan
    → Ends t.counts later (rc ∷ plan)
unfolding review_change
step-Ends rc plan t later h e = elim (Bool-cases (is_noop (actions_of rc))) [
  | inl quiet ↦
      rw
        (
          tally-quiet "create" p6_allowlist rc plan quiet,
          tally-quiet "update" p6_allowlist rc plan quiet,
        )
        (rw quiet at e)
  | inr acts ↦ elim h [
    | inl quiet ↦ cc (quiet, acts)
    | inr (action, listed, got) ↦
        rw
          (
            tally-reviewed "create" action rc plan acts listed,
            tally-reviewed "update" action rc plan acts listed,
          )
          (count_actions-Ends action t.counts later (tally "create" p6_allowlist plan)
            (tally "update" p6_allowlist plan) (reviewed-Either (bare rc) action listed)
            (rw (acts, got) at e))
  ]
]

loop-Ends :
    (plan : List ResourceChange) (t : Review)
    → All Expected plan
    → Ends t.counts (review_changes plan t).counts plan
unfolding review_changes
loop-Ends [] t h = (omega arith, omega arith, refl, refl)
loop-Ends (rc ∷ plan) t (now, rest) =
    step-Ends rc plan t (review_changes plan (review_change rc t)).counts now
      (loop-Ends plan (review_change rc t) rest)

tally-created :
    (plan : List ResourceChange) → OnceEach p6_allowlist plan → tally "create" p6_allowlist plan ≡ 5
tally-created plan (a, (b, (c, (d, (e, rest))))) = rw (a, b, c, d, e) refl

tally-updated :
    (plan : List ResourceChange) → OnceEach p6_allowlist plan → tally "update" p6_allowlist plan ≡ 5
tally-updated plan (a, (b, (c, (d, (e, (f, (g, (h, (i, (j, end)))))))))) = rw (f, g, h, i, j) refl

-- An exact plan has the expected totals.
pub Exact-is_expected :
    (plan : List ResourceChange)
    → Exact plan
    → is_expected (review_changes plan empty_review).counts ≡ true
Exact-is_expected plan (fine, once) =
    let ends = loop-Ends plan empty_review fine in
    rw (ends.0, ends.1, ends.2, ends.3, tally-created plan once, tally-updated plan once) refl
