-- ===== src/Policy/Recovery/Command.antt =====
-- The command line of infra/terraform/scripts/p6_plan_policy.py.
use technical_test_mitus_ai.Prelude.{
  String, ◌≡◌, refl, ap, sym, ◌∙◌, inl, inr, true, false, Option, none, some, List, [], ◌∷◌, ◌==◌,
  string_eq, codes, contains, starts_with, Bool-cases, arith,
}
use technical_test_mitus_ai.Policy.Address.{ResourceChange}
use technical_test_mitus_ai.Policy.Recovery.{reviewed_sha256, evaluate, is_ok}
use technical_test_mitus_ai.Policy.Recovery.Options.{Options, parse_args, verdict, run, main}
use technical_test_mitus_ai.Policy.Recovery.Exact.{Exact}
use technical_test_mitus_ai.Policy.Recovery.Verdict.{evaluate_iff}

not_first :
    (arg name : String) (args : List String)
    → contains (arg ∷ args) name ≡ false
    → arg == name ≡ false
unfolding contains
not_first arg name args h = ground arith

not_later :
    (arg name : String) (args : List String)
    → contains (arg ∷ args) name ≡ false
    → contains args name ≡ false
unfolding contains
not_later arg name args h = ground arith

-- The last of the arguments, where there are any
abbrev pub last_given : Option String → List String → Option String
last_given path [] = path
last_given path (arg ∷ args) = last_given (some arg) args

-- Arguments that say nothing of the digest leave the required one as it is, and the last is the path.
parse_args-gated :
    (args : List String) (o parsed : Options)
    → contains args "--no-hash-gate" ≡ false
    → contains args "--require-hash" ≡ false
    → parse_args args o ≡ some parsed
    → (parsed.require_hash ≡ o.require_hash) × (parsed.path ≡ last_given o.path args)
unfolding parse_args
parse_args-gated [] o parsed a b h = (cc, cc)
parse_args-gated (arg ∷ []) o parsed a b h =
    elim (Bool-cases (starts_with (codes arg) (codes "-"))) [
      | inl unknown ↦
          let got =
            rw (not_first arg "--no-hash-gate" [] a, not_first arg "--require-hash" [] b, unknown)
              at h in
          cc
      | inr plain ↦
          let got =
            rw (not_first arg "--no-hash-gate" [] a, not_first arg "--require-hash" [] b, plain) at
              h in
          (cc, cc)
    ]
parse_args-gated (arg ∷ value ∷ args) o parsed a b h =
    let later = value ∷ args in
    elim (Bool-cases (starts_with (codes arg) (codes "-"))) [
      | inl unknown ↦
          let got =
            rw
              (
                not_first arg "--no-hash-gate" later a,
                not_first arg "--require-hash" later b,
                unknown,
              )
              at h in
          cc
      | inr plain ↦
          parse_args-gated (value ∷ args) (record o { path = some arg }) parsed
            (not_later arg "--no-hash-gate" later a) (not_later arg "--require-hash" later b)
            (rw
              (
                not_first arg "--no-hash-gate" later a,
                not_first arg "--require-hash" later b,
                plain,
              )
              at h)
    ]

module _ (hash_of : List (String × List String) → String)
    (read_plan : Option String → Option (List ResourceChange)) where
  verdict-ok :
      (require_hash : Option String) (read : Option (List ResourceChange))
      → verdict hash_of read_plan require_hash read ≡ 0
      → (plan : List ResourceChange) × (read ≡ some plan)
        × (is_ok hash_of (evaluate hash_of require_hash plan) ≡ true)
  verdict-ok require_hash none h = cc
  verdict-ok require_hash (some plan) h = (plan, refl, ground arith)

  run-ok :
      (options : Option Options)
      → run hash_of read_plan options ≡ 0
      → (o : Options) × (plan : List ResourceChange) × (options ≡ some o)
        × (read_plan o.path ≡ some plan)
        × (is_ok hash_of (evaluate hash_of o.require_hash plan) ≡ true)
  run-ok none h = cc
  run-ok (some o) h =
      let ok = verdict-ok o.require_hash (read_plan o.path) h in (o, ok.0, refl, ok.1, ok.2)

  -- Where no argument is --no-hash-gate or --require-hash, an exit code of 0 means that the plan
  -- that is read (from the last argument, or from stdin if there is none) is exact and that the
  -- digest of its summary is the reviewed one.
  pub main-Exact :
      (args : List String)
      → contains args "--no-hash-gate" ≡ false
      → contains args "--require-hash" ≡ false
      → main hash_of read_plan args ≡ 0
      → (plan : List ResourceChange) × (read_plan (last_given none args) ≡ some plan)
        × Exact plan
        × ((evaluate hash_of (some reviewed_sha256) plan).summary_hash ≡ reviewed_sha256)
  unfolding main
  main-Exact args a b h =
      let start : Options = record { require_hash = some reviewed_sha256; path = none } in
      let ok = run-ok (parse_args args start) h in
      let gate = parse_args-gated args start ok.0 a b ok.2 in
      let passed = (evaluate_iff hash_of (some reviewed_sha256) ok.1).0 (rw gate.0 at ok.4) in
      (ok.1, ap read_plan (sym gate.1) ∙ ok.3, passed.0, passed.1)
