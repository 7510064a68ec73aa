-- ===== src/Policy/Recovery.antt =====
-- infra/terraform/scripts/p6_plan_policy.py: the policy that admits one reviewed plan. Its digest is a
-- parameter: the SHA-256 of the compact JSON text of the sorted summary.
pub mod Options
pub mod Seen
pub mod Exact
pub mod Totals
pub mod Loop
pub mod Sums
pub mod Verdict
pub mod Command
use technical_test_mitus_ai.Prelude.{
  ℕ, suc, String, Bool, true, false, not, ◌&&◌, ◌||◌, Option, none, some, List, [], ◌∷◌, ◌++◌, map,
  ◌==◌, nat_eq, string_eq, list_eq, if◌then◌else◌, codes, before, contains, is_empty, ltb, is_some,
  starts_with,
}
use technical_test_mitus_ai.Policy.Address.{
  ResourceChange, actions_of, address_of, only, is_noop, bracket, join_cut, last_parts,
}

-- `P6_ALLOWLIST`, with the keys as code points
abbrev pub p6_allowlist : List (List ℕ × String)
p6_allowlist =
    (codes "azurerm_monitor_metric_alert.api_server_errors", "create")
    ∷ (codes "azurerm_monitor_metric_alert.migration_job_failure", "create")
    ∷ (codes "azurerm_monitor_metric_alert.worker_job_failure", "create")
    ∷ (codes "azurerm_role_assignment.application_insights_api", "create")
    ∷ (codes "azurerm_role_assignment.application_insights_worker", "create")
    ∷ (codes "azurerm_container_app.api", "update")
    ∷ (codes "azurerm_container_app.frontend", "update")
    ∷ (codes "azurerm_container_app_job.migration", "update")
    ∷ (codes "azurerm_container_app_job.worker", "update")
    ∷ (codes "azurerm_monitor_diagnostic_setting.container_app_environment", "update")
    ∷ []

abbrev pub reviewed_sha256 : String
reviewed_sha256 = "8e0e942484af7a868fd09703cebf7aef941d797c7a177e4d01e6620b3b94cd9d"

abbrev pub bare_of : String → Option (List ℕ × List ℕ) → List ℕ
bare_of address none = before bracket (codes address)
bare_of address (some pair) = join_cut pair

unfoldable pub bare_address : String → List ℕ
unfolding last_parts before
bare_address address = bare_of address (last_parts address)

-- `P6_ALLOWLIST.get(bare)`
abbrev pub reviewed_action : List ℕ → List (List ℕ × String) → Option String
reviewed_action bare [] = none
reviewed_action bare ((key, action) ∷ allowlist) =
    let rest = reviewed_action bare allowlist in if key == bare then some action else rest

-- A line of `violations`, with the resource that it names
pub data Violation : Type 0 where
  replace_not_allowed : String → Violation
  destroy_not_allowed : String → Violation
  not_in_allowlist : String → Violation
  unexpected_action : String → Violation
  duplicate_change : List ℕ → Violation
  missing_resource : List ℕ → Violation
  totals_mismatch : Violation
  hash_mismatch : Violation

pub record Counts : Type 0 where
  pub add : ℕ
  pub change : ℕ
  pub destroy : ℕ
  pub replace : ℕ

-- The local variables of `evaluate`
pub record Review : Type 0 where
  pub counts : Counts
  pub violations : List Violation
  pub summary : List (String × List String)
  pub seen : List (List ℕ × ℕ)

abbrev pub empty_review : Review
empty_review = record {
  counts = record { add = 0; change = 0; destroy = 0; replace = 0 };
  violations = [];
  summary = [];
  seen = [];
}

abbrev pub is_replace : List String → Bool
is_replace actions = contains actions "delete" && contains actions "create"

abbrev pub count_actions : List String → Counts → Counts
count_actions actions t =
    if is_replace actions
    then record t { replace = suc t.replace }
    else if only "delete" actions
    then record t { destroy = suc t.destroy }
    else if only "create" actions
    then record t { add = suc t.add }
    else if only "update" actions
    then record t { change = suc t.change }
    else t

-- `seen[bare] = seen.get(bare, 0) + 1`
abbrev pub count_seen : List ℕ → List (List ℕ × ℕ) → List (List ℕ × ℕ)
count_seen bare [] = (bare, 1) ∷ []
count_seen bare ((key, n) ∷ seen) =
    let rest = count_seen bare seen in if key == bare then (key, suc n) ∷ seen else (key, n) ∷ rest

-- Rules 1 and 2 on one change
abbrev pub check_action : String → List String → Option String → List Violation
check_action address actions none = not_in_allowlist address ∷ []
check_action address actions (some expected) =
    if actions == expected ∷ [] then [] else unexpected_action address ∷ []

abbrev pub is_delete : List String → Bool
is_delete actions = contains actions "delete"

abbrev pub check_change : String → List String → List Violation
check_change address actions =
    if is_delete actions
    then (if is_replace actions then replace_not_allowed address else destroy_not_allowed address)
      ∷ []
    else check_action address actions (reviewed_action (bare_address address) p6_allowlist)

-- The body of the loop over the resource changes
unfoldable pub review_change : ResourceChange → Review → Review
unfolding only bare_address
review_change rc t =
    let actions = actions_of rc in
    let address = address_of rc in
    if is_noop actions then t else record {
      counts = count_actions actions t.counts;
      violations = t.violations ++ check_change address actions;
      summary = t.summary ++ (address, actions) ∷ [];
      seen = if is_delete actions then t.seen else count_seen (bare_address address) t.seen;
    }

unfoldable pub review_changes : List ResourceChange → Review → Review
unfolding review_change
review_changes [] t = t
review_changes (rc ∷ plan) t = review_changes plan (review_change rc t)

-- Python's order of texts
unfoldable pub precedes : List ℕ → List ℕ → Bool
precedes [] b = true
precedes (x ∷ a) [] = false
precedes (x ∷ a) (y ∷ b) = ltb x y || x == y && precedes a b

module _ {A : Type 0} (key : A → List ℕ) where
  unfoldable pub insert_by : A → List A → List A
  unfolding precedes
  insert_by a [] = a ∷ []
  insert_by a (b ∷ sorted) =
      let rest = insert_by a sorted in if precedes (key a) (key b) then a ∷ b ∷ sorted else b ∷ rest

  -- `sorted(…, key=…)`
  unfoldable pub sort_by : List A → List A
  unfolding insert_by
  sort_by [] = []
  sort_by (a ∷ xs) = insert_by a (sort_by xs)

-- Rule 3: no allowlisted resource more than once
abbrev pub duplicates : List (List ℕ × ℕ) → List Violation
duplicates [] = []
duplicates ((bare, n) ∷ seen) =
    let rest = duplicates seen in
    if ltb 1 n && is_some (reviewed_action bare p6_allowlist)
    then duplicate_change bare ∷ rest
    else rest

abbrev pub is_seen : List ℕ → List (List ℕ × ℕ) → Bool
is_seen bare [] = false
is_seen bare ((key, n) ∷ seen) = key == bare || is_seen bare seen

-- Rule 3: each of them at least once
abbrev pub missing : List (List ℕ) → List (List ℕ × ℕ) → List Violation
missing [] seen = []
missing (bare ∷ keys) seen =
    let rest = missing keys seen in if is_seen bare seen then rest else missing_resource bare ∷ rest

abbrev pub is_expected : Counts → Bool
is_expected c = c.add == 5 && c.change == 5 && c.destroy == 0 && c.replace == 0

-- Rule 4
abbrev pub check_totals : Counts → List Violation
check_totals c = if is_expected c then [] else totals_mismatch ∷ []

-- Rule 5
abbrev pub check_hash : Option String → String → List Violation
check_hash none found = []
check_hash (some expected) found = if found == expected then [] else hash_mismatch ∷ []

pub record Evaluation : Type 0 where
  pub summary : List (String × List String)
  pub counts : Counts
  pub summary_hash : String
  pub violations : List Violation

module _ (hash_of : List (String × List String) → String) where
  abbrev pub conclude : Option String → Review → Evaluation
  conclude require_hash t =
      let summary = sort_by (λ s. codes s.0) t.summary in
      record {
        summary = summary;
        counts = t.counts;
        summary_hash = hash_of summary;
        violations =
            t.violations
            ++ (duplicates (sort_by (λ s. s.0) t.seen)
                ++ (missing (sort_by (λ k. k) (map (λ entry. entry.0) p6_allowlist)) t.seen
                    ++ (check_totals t.counts ++ check_hash require_hash (hash_of summary))));
      }

  unfoldable pub evaluate : Option String → List ResourceChange → Evaluation
  unfolding review_changes sort_by
  evaluate require_hash plan = conclude require_hash (review_changes plan empty_review)

  -- `not violations`
  abbrev pub is_ok : Evaluation → Bool
  is_ok e = is_empty e.violations
