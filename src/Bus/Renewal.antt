-- ===== src/Bus/Renewal.antt =====
-- v2/src/footballai_v2/execution/queue/lock_renewal.py: the thread that renews one message's lock. Its
-- environment is the list of what each turn of the loop meets.
use technical_test_mitus_ai.Prelude.{
  ℕ, suc, ◌+◌, List, [], ◌∷◌, leb, if◌then◌else◌, Result, ok, ◌>>◌, forbid, value_error, ◌==◌,
  nat_eq,
}

-- `wait(interval)` finds the stop event, or times out and the renewal succeeds or raises.
pub data Wait : Type 0 where
  stop_set renewal_succeeds renewal_raises : Wait

-- The thread waits for its next turn, was stopped, or reached its maximum lifetime.
pub data Exit : Type 0 where
  waiting stopped lifetime_reached : Exit

-- The fields of `LockRenewer` that change; `calls` counts the calls of `renew`.
pub record Renewer : Type 0 where
  pub elapsed : ℕ
  pub renewals : ℕ
  pub calls : ℕ

abbrev pub new_renewer : Renewer
new_renewer = record { elapsed = 0; renewals = 0; calls = 0 }

-- The checks of `__init__`
unfoldable pub lock_renewer : (interval max_lifetime : ℕ) → Result Renewer
lock_renewer interval max_lifetime = do
  forbid (interval == 0) value_error
  forbid (max_lifetime == 0) value_error
  ok new_renewer

abbrev pub renew : Wait → Renewer → Renewer
renew renewal_succeeds r = record r { renewals = suc r.renewals; calls = suc r.calls }
renew _ r = record r { calls = suc r.calls }

-- `_run`
unfoldable pub run_loop : (interval max_lifetime : ℕ) → List Wait → Renewer → Exit × Renewer
run_loop interval max_lifetime [] r = (waiting, r)
run_loop interval max_lifetime (stop_set ∷ waits) r = (stopped, r)
run_loop interval max_lifetime (wait ∷ waits) r =
    let waited = record r { elapsed = r.elapsed + interval } in
    let rest = run_loop interval max_lifetime waits (renew wait waited) in
    if leb max_lifetime waited.elapsed then (lifetime_reached, waited) else rest
