-- ===== src/Policy/Recovery/Options.antt =====
-- The command line of infra/terraform/scripts/p6_plan_policy.py. How the plan is read and parsed is a parameter.
use technical_test_mitus_ai.Prelude.{
  ℕ, String, ◌||◌, Option, none, some, List, [], ◌∷◌, ◌==◌, string_eq, if◌then◌else◌, codes,
  starts_with,
}
use technical_test_mitus_ai.Policy.Address.{ResourceChange}
use technical_test_mitus_ai.Policy.Recovery.{reviewed_sha256, evaluate, is_ok}

-- The options of `main`, as far as they are read
pub record Options : Type 0 where
  pub require_hash : Option String
  pub path : Option String

-- The loop over `argv[1:]`; none is a usage error
unfoldable pub parse_args : List String → Options → Option Options
unfolding starts_with
parse_args [] o = some o
parse_args (arg ∷ []) o =
    if arg == "--no-hash-gate"
    then some (record o { require_hash = none })
    else if arg == "--require-hash" || starts_with (codes arg) (codes "-")
    then none
    else some (record o { path = some arg })
parse_args (arg ∷ value ∷ args) o =
    let ungated = parse_args (value ∷ args) (record o { require_hash = none }) in
    let gated = parse_args args (record o { require_hash = some value }) in
    let named = parse_args (value ∷ args) (record o { path = some arg }) in
    if arg == "--no-hash-gate"
    then ungated
    else if arg == "--require-hash"
    then gated
    else if starts_with (codes arg) (codes "-")
    then none
    else named

module _ (hash_of : List (String × List String) → String)
    (read_plan : Option String → Option (List ResourceChange)) where
  abbrev pub verdict : Option String → Option (List ResourceChange) → ℕ
  verdict require_hash none = 1
  verdict require_hash (some plan) =
      if is_ok hash_of (evaluate hash_of require_hash plan) then 0 else 2

  abbrev pub run : Option Options → ℕ
  run none = 1
  run (some o) = verdict o.require_hash (read_plan o.path)

  -- The exit code
  unfoldable pub main : List String → ℕ
  unfolding parse_args evaluate
  main args = run (parse_args args (record { require_hash = some reviewed_sha256; path = none }))
