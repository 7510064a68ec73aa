-- ===== src/Bus/Lifetime.antt =====
-- How long a renewer of v2/src/footballai_v2/execution/queue/lock_renewal.py holds a lock.
use technical_test_mitus_ai.Prelude.{
  ℕ, ◌+◌, ◌*◌, ◌≤◌, ◌<◌, ◌≡◌, ◌≢◌, ap, refl, ◌⊎◌, inl, inr, false, List, [], ◌∷◌, leb, length,
  Bool-cases, arith,
}
use technical_test_mitus_ai.Bus.Renewal.{
  Wait, stop_set, renewal_succeeds, renewal_raises, Exit, waiting, stopped, lifetime_reached,
  Renewer, new_renewer, renew, run_loop,
}

-- The time that has passed is that of the calls of `renew`, and lies before the end of the lifetime.
abbrev pub InTime : (interval max_lifetime : ℕ) → Renewer → Type 0
InTime interval max_lifetime r =
    (r.elapsed ≡ r.calls * interval) × (r.elapsed < max_lifetime) × (r.renewals ≤ r.calls)

abbrev pub Bounded : (interval max_lifetime : ℕ) → (start turns : ℕ) → Exit × Renewer → Type 0
Bounded interval max_lifetime start turns (exit, r) =
    (r.calls * interval < max_lifetime)
    × (r.renewals ≤ r.calls)
    × (exit ≡ waiting → r.calls ≡ start + turns)

-- A turn that is neither stopped nor too late calls `renew` once.
renew-InTime :
    (interval max_lifetime : ℕ) (wait : Wait) (r : Renewer)
    → InTime interval max_lifetime r
    → leb max_lifetime (r.elapsed + interval) ≡ false
    → InTime interval max_lifetime (renew wait (record r { elapsed = r.elapsed + interval }))
renew-InTime interval max_lifetime stop_set r h early = (omega arith, ground arith, omega arith)
renew-InTime interval max_lifetime renewal_succeeds r h early =
    (omega arith, ground arith, omega arith)
renew-InTime interval max_lifetime renewal_raises r h early =
    (omega arith, ground arith, omega arith)

run_loop-Bounded :
    (interval max_lifetime : ℕ) (waits : List Wait) (r : Renewer)
    → InTime interval max_lifetime r
    → Bounded interval max_lifetime r.calls (length waits) (run_loop interval max_lifetime waits r)
unfolding run_loop
run_loop-Bounded interval max_lifetime [] r h = (omega arith, h.2, λ e. omega arith)
run_loop-Bounded interval max_lifetime (stop_set ∷ waits) r h = (omega arith, h.2, λ e. cc e)
run_loop-Bounded interval max_lifetime (renewal_succeeds ∷ waits) r h =
    elim (Bool-cases (leb max_lifetime (r.elapsed + interval))) [
      | inl late ↦ rw late (omega arith, h.2, λ e. cc e)
      | inr early ↦
          let waited : Renewer = record r { elapsed = r.elapsed + interval } in
          let (few, fewer, all) =
            run_loop-Bounded interval max_lifetime waits (renew renewal_succeeds waited)
              (renew-InTime interval max_lifetime renewal_succeeds r h early) in
          rw early (few, fewer, λ e. let total = all e in omega arith)
    ]
run_loop-Bounded interval max_lifetime (renewal_raises ∷ waits) r h =
    elim (Bool-cases (leb max_lifetime (r.elapsed + interval))) [
      | inl late ↦ rw late (omega arith, h.2, λ e. cc e)
      | inr early ↦
          let waited : Renewer = record r { elapsed = r.elapsed + interval } in
          let (few, fewer, all) =
            run_loop-Bounded interval max_lifetime waits (renew renewal_raises waited)
              (renew-InTime interval max_lifetime renewal_raises r h early) in
          rw early (few, fewer, λ e. let total = all e in omega arith)
    ]

waiting_or_not : (exit : Exit) → (exit ≡ waiting) ⊎ (exit ≢ waiting)
waiting_or_not waiting = inl refl
waiting_or_not stopped = inr (λ e. cc e)
waiting_or_not lifetime_reached = inr (λ e. cc e)

-- A renewer with a positive lifetime calls `renew` only before the lifetime ends, counts no more
-- renewals than calls, and is not waiting any more once its turns would take up the lifetime, whether
-- or not anyone stops it.
pub run_loop-bounded :
    (interval max_lifetime : ℕ) (waits : List Wait)
    → 0 < max_lifetime
    → ((run_loop interval max_lifetime waits new_renewer).1.calls * interval < max_lifetime)
      × ((run_loop interval max_lifetime waits new_renewer).1.renewals
          ≤ (run_loop interval max_lifetime waits new_renewer).1.calls)
      × (((run_loop interval max_lifetime waits new_renewer).0 ≢ waiting)
          ⊎ (length waits * interval < max_lifetime))
run_loop-bounded interval max_lifetime waits positive =
    let (few, fewer, all) =
      run_loop-Bounded interval max_lifetime waits new_renewer
        (omega arith, positive, omega arith) in
    (
      few,
      fewer,
      elim (waiting_or_not (run_loop interval max_lifetime waits new_renewer).0) [
        | inl e ↦ inr (let total = ap (λ c. c * interval) (all e) in omega arith)
        | inr over ↦ inl over
      ],
    )
