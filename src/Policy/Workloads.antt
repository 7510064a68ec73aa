-- ===== src/Policy/Workloads.antt =====
-- The addresses that `_is_allowed_workload` of infra/terraform/scripts/plan_policy.py accepts.
use technical_test_mitus_ai.Prelude.{
  ℕ, String, ◌≡◌, refl, sym, ap, ◌∙◌, ◌↔◌, inl, inr, true, List, [], ◌∷◌, ◌++◌, append_assoc, map,
  codes, split_on, before, contains, ◌==◌, nat_eq, string_eq, list_eq, All, codes_iff, Bool-cases,
  arith, Option, none, some, subst,
}
use technical_test_mitus_ai.Policy.Address.{
  dot, bracket, last_two, last_parts, allowed_workloads, names_workload, is_allowed_workload,
}
use technical_test_mitus_ai.Policy.Parts.{
  count, IsModulePath, IsIndex, count-++, last_parts_iff, before-cut, before-whole,
}

-- An address is a module path, one of the four names of workloads, and an index without a dot.
abbrev pub IsWorkload : String → Type 0
IsWorkload address =
    (module_path name index : List ℕ) × (codes address ≡ module_path ++ (name ++ index))
    × IsModulePath module_path
    × (contains (map codes allowed_workloads) name ≡ true)
    × IsIndex index
    × (count dot index ≡ 0)

-- A type and a name of a resource, without dots and brackets
IsTypeName : List ℕ → Type 0
IsTypeName n =
    (x y : List ℕ) × (n ≡ x ++ dot ∷ y)
    × (count dot x ≡ 0)
    × (count dot y ≡ 0)
    × (count bracket n ≡ 0)

contains-All :
    (P : List ℕ → Type 0) (names : List (List ℕ)) (n : List ℕ)
    → All P names
    → contains names n ≡ true
    → P n
unfolding contains
contains-All P [] n held h = cc
contains-All P (name ∷ names) n held h = elim (Bool-cases (name == n)) [
  | inl same ↦ subst P ((codes_iff name n).0 same) held.0
  | inr other ↦ contains-All P names n held.1 (ground arith)
]

workload-IsTypeName : (n : List ℕ) → contains (map codes allowed_workloads) n ≡ true → IsTypeName n
unfolding IsTypeName
workload-IsTypeName n h =
    let app = codes "azurerm_container_app" in
    let job = codes "azurerm_container_app_job" in
    contains-All IsTypeName (map codes allowed_workloads) n
      (
        (app, codes "api", refl, refl, refl, refl),
        (
          (app, codes "frontend", refl, refl, refl, refl),
          (
            (job, codes "worker", refl, refl, refl, refl),
            ((job, codes "migration", refl, refl, refl, refl), tt),
          ),
        ),
      )
      h

count-one : (x y : List ℕ) → count dot x ≡ 0 → count dot y ≡ 0 → count dot (x ++ dot ∷ y) ≡ 1
count-one x y x_free y_free = let sum = count-++ dot x (dot ∷ y) in omega (arith, sum)

named-IsWorkload :
    (address : String) (found : Option (List ℕ × List ℕ))
    → last_two (split_on dot (codes address)) ≡ found
    → names_workload found ≡ true
    → IsWorkload address
unfolding IsTypeName
named-IsWorkload address none e h = cc
named-IsWorkload address (some (x, y)) e h =
    let (module_path, whole, path, x_free, y_free) = (last_parts_iff (codes address) x y).0 e in
    let (index, split, cut) = before-cut (x ++ dot ∷ y) in
    let name = before bracket (x ++ dot ∷ y) in
    let (a, b, named, a_free, b_free, _) = workload-IsTypeName name h in
    let dots : count dot name ≡ 1 = ap (count dot) named ∙ count-one a b a_free b_free in
    let total : count dot (name ++ index) ≡ 1 =
      ap (count dot) (sym split) ∙ count-one x y x_free y_free in
    let sum = count-++ dot name index in
    (
      module_path,
      name,
      index,
      whole ∙ ap (λ t. module_path ++ t) split,
      path,
      h,
      cut,
      omega (arith, dots, total, sum),
    )

-- An address counts as one of an allowed workload exactly if it is made of a module path (nothing, or
-- any text up to a dot), one of the four listed names, and an index (nothing, or a text from a bracket
-- on) that has no dot.
pub is_allowed_workload_iff :
    (address : String) → (is_allowed_workload address ≡ true) ↔ IsWorkload address
unfolding is_allowed_workload last_parts IsTypeName
is_allowed_workload_iff address = (
  λ h. named-IsWorkload address (last_two (split_on dot (codes address))) refl h,
  λ (module_path, name, index, whole, path, known, cut, free).
      let (x, y, named, x_free, y_free, plain) = workload-IsTypeName name known in
      let sum = count-++ dot y index in
      let joined_up : name ++ index ≡ x ++ dot ∷ (y ++ index) =
        ap (λ n. n ++ index) named ∙ append_assoc x (dot ∷ y) index in
      let parts = (last_parts_iff (codes address) x (y ++ index)).1 (
        module_path,
        whole ∙ ap (λ t. module_path ++ t) joined_up,
        path,
        x_free,
        omega (arith, sum, y_free, free),
      ) in
      ap names_workload parts
      ∙ ap (λ t. contains (map codes allowed_workloads) (before bracket t)) (sym joined_up)
      ∙ ap (contains (map codes allowed_workloads)) (before-whole name index plain cut)
      ∙ known,
)
