-- ===== src/Coordinator/Delivery.antt =====
-- The retries and clones of v2/src/footballai_v2/execution/coordinator.py: no attempt waits without a job.
use technical_test_mitus_ai.Prelude.{
  ℕ, ◌≤◌, ◌+◌, String, ◌≡◌, refl, sym, ap, subst, ◌∙◌, true, none, some, List, string_eq, contains,
  text_eq_refl, Result, ok, err, ◌>>◌, >>=-eq-ok, ok-injective, Error, inl, inr, ◌⊎◌, Bool-cases,
}
use technical_test_mitus_ai.Contract.Json.{JsonValue}
use technical_test_mitus_ai.Contract.Json.Equality.{keyed_fields}
use technical_test_mitus_ai.Contract.References.{CodeReference}
use technical_test_mitus_ai.Contract.Run.{AnalysisRun}
use technical_test_mitus_ai.Contract.Transitions.{new, no_arguments, retry_from, with_stages}
use technical_test_mitus_ai.Repository.{attempt_row, create, load}
use technical_test_mitus_ai.Repository.Tables.{Database}
use technical_test_mitus_ai.Repository.Saves.{row_of}
use technical_test_mitus_ai.Queue.Jobs.{ExecutionJob, execution_job, execution_job-ok}
use technical_test_mitus_ai.Queue.Files.{queued, exists, lookup, readable, place_number}
use technical_test_mitus_ai.Queue.Local.{Queue, enqueue}
use technical_test_mitus_ai.Storage.Memory.{Objects}
use technical_test_mitus_ai.Storage.Inputs.{copy_input}
use technical_test_mitus_ai.Uploads.Service.{submit, enqueued}
use technical_test_mitus_ai.Coordinator.{
  Planes, Readings, Outcome, queued_stages, compensate, queued_or_failed, copied_or_failed,
  profile_of, deliver, admit, launch, next_attempt, retry, cloned_from, cloned, clone,
}
use technical_test_mitus_ai.Coordinator.Compensation.{
  create-stored, Fresh, IsFailed, compensate-IsFailed,
}
use technical_test_mitus_ai.Coordinator.Planned.{
  Retries, Clones, staged-Retries, made-Clones, staged-Fresh, new-Fresh,
}

-- A job says which attempt it is for.
abbrev pub JobOf : AnalysisRun → ExecutionJob → Type 0
JobOf run job =
    (job.run_id ≡ run.run_id)
    × (job.logical_analysis_id ≡ run.logical_analysis_id)
    × (job.attempt_number ≡ run.attempt_number)

-- The queue has a job for the run, and reserves the run.
abbrev pub IsQueued : AnalysisRun → (job_id : String) → Queue → Type 0
IsQueued run job_id q =
    (contains q.run_index run.run_id ≡ true)
    × ((job : ExecutionJob) × (lookup queued job_id q.files ≡ some (readable job)) × JobOf run job)

enqueue-IsQueued :
    (run : AnalysisRun) (job : ExecutionJob) (q : Queue)
    → (enqueue job q).0 ≡ ok tt
    → JobOf run job
    → IsQueued run job.job_id (enqueue job q).1
unfolding enqueue contains exists place_number
enqueue-IsQueued run job q h mine = elim (Bool-cases (contains q.run_index job.run_id)) [
  | inl reserved ↦ cc (rw reserved at h)
  | inr free ↦ elim (Bool-cases (exists queued job.job_id q.files)) [
    | inl there ↦ cc (rw (free, there) at h)
    | inr missing ↦
        rw (free, missing)
          (
            rw mine.0 (rw (text_eq_refl run.run_id) refl),
            (job, rw (text_eq_refl job.job_id) refl, mine),
          )
  ]
]

-- What a submission does with a run
abbrev Submitted : AnalysisRun → (job_id : String) → Result AnalysisRun × Database × Queue → Type 0
Submitted run job_id (result, db, q) =
    ((result ≡ ok run) × IsQueued run job_id q) ⊎ ((raised : Error) × (result ≡ err raised))

enqueued-Submitted :
    (run : AnalysisRun) (job : ExecutionJob) (db : Database) (q : Queue) (done : Result (Unit {0}))
    → (enqueue job q).0 ≡ done
    → JobOf run job
    → Submitted run job.job_id (done >> ok run, db, (enqueue job q).1)
enqueued-Submitted run job db q (err raised) e mine = inr (raised, refl)
enqueued-Submitted run job db q (ok tt) e mine = inl (refl, enqueue-IsQueued run job q e mine)

made-Submitted :
    (run : AnalysisRun) (wanted : ExecutionJob) (db : Database) (q : Queue)
    (made : Result ExecutionJob)
    → execution_job wanted ≡ made
    → JobOf run wanted
    → Submitted run wanted.job_id (enqueued run db q made)
made-Submitted run wanted db q (err raised) e mine = inr (raised, refl)
made-Submitted run wanted db q (ok job) e mine =
    let handed = execution_job-ok wanted job e in
    rw (← handed) (enqueued-Submitted run wanted db q (enqueue wanted q).0 refl mine)

submit-Submitted :
    (run : AnalysisRun) (profile job_id : String) (now : ℕ) (db : Database) (q : Queue)
    → Submitted run job_id (submit run profile job_id now db q)
unfolding submit
submit-Submitted run profile job_id now db q =
    let wanted : ExecutionJob = record {
      job_id = job_id;
      run_id = run.run_id;
      logical_analysis_id = run.logical_analysis_id;
      attempt_number = run.attempt_number;
      pipeline_profile = profile;
      created_at = now;
      claimed_at = none;
      worker_id = none;
    } in
    made-Submitted run wanted db q (execution_job wanted) refl (refl, refl, refl)

module _ (sha256_of : List ℕ → String) (str : JsonValue → String) (c : Readings) where
  -- How a call leaves the planes, where the new run is as planned and has the id of the readings
  abbrev pub Settled :
      (Planned : AnalysisRun → Type 0) → (source_run_id : String) → Planes → Outcome → Type 0
  Settled Planned source_run_id p outcome =
      ((run : AnalysisRun) × (outcome.0 ≡ ok run)
        × Planned run
        × (run.run_id ≡ c.run_id)
        × (row_of run.run_id outcome.1.db ≡ some (attempt_row run 1))
        × ((key : List ℕ) × (copy_input sha256_of source_run_id run.run_id p.objects
              ≡ (ok key, outcome.1.objects)))
        × IsQueued run c.job_id outcome.1.queue)
      ⊎ ((raised : Error) × (outcome.0 ≡ err raised)
          × ((outcome.1 ≡ p) ⊎ IsFailed c.run_id outcome.1.db))

  module _ (Planned : AnalysisRun → Type 0) (source_run_id : String) (run : AnalysisRun)
      (f : Fresh run) (planned : Planned run) (named : run.run_id ≡ c.run_id)
      (late : run.created_at ≤ c.failed_time) where
    failed_after :
        (p start : Planes) (raised : Error)
        → row_of run.run_id p.db ≡ some (attempt_row run 1)
        → Settled Planned source_run_id start (compensate run c raised p)
    failed_after p start raised stored =
        let done = compensate-IsFailed run c raised p f late stored in
        inr (
          raised,
          done.0,
          inr (subst (λ k. IsFailed k (compensate run c raised p).1.db) named done.1),
        )

    queued-Settled :
        (p start : Planes) (key : List ℕ) (submitted : Result AnalysisRun × Database × Queue)
        → row_of run.run_id p.db ≡ some (attempt_row run 1)
        → copy_input sha256_of source_run_id run.run_id start.objects ≡ (ok key, p.objects)
        → Submitted run c.job_id submitted
        → Settled Planned source_run_id start (queued_or_failed run c p submitted)
    queued-Settled p start key (ok same, db, q) stored copied (inl (e, waiting)) =
        inl (run, refl, planned, named, stored, (key, copied), waiting)
    queued-Settled p start key (ok same, db, q) stored copied (inr (raised, e)) = cc
    queued-Settled p start key (err raised, db, q) stored copied s =
        failed_after (record p { queue = q }) start raised stored

    copied-Settled :
        (profile : String) (p start : Planes) (copied : Result (List ℕ) × Objects)
        → row_of run.run_id p.db ≡ some (attempt_row run 1)
        → copy_input sha256_of source_run_id run.run_id start.objects ≡ copied
        → Settled Planned source_run_id start (copied_or_failed run profile c p copied)
    copied-Settled profile p start (err raised, objects) stored e =
        failed_after (record p { objects = objects }) start raised stored
    copied-Settled profile p start (ok key, objects) stored e =
        queued-Settled (record p { objects = objects }) start key
          (submit run profile c.job_id c.job_time p.db p.queue) stored e
          (submit-Submitted run profile c.job_id c.job_time p.db p.queue)

    admit-Settled :
        (profile : String) (p : Planes) (created : Result (String × Database))
        → create run c.created_time p.db ≡ created
        → Settled Planned source_run_id p
            (admit sha256_of str source_run_id run profile c p created)
    unfolding deliver
    admit-Settled profile p (err raised) e = inr (raised, refl, inl refl)
    admit-Settled profile p (ok (id, db)) e =
        copied-Settled profile (record p { db = db }) p
          (copy_input sha256_of source_run_id run.run_id p.objects)
          (create-stored run c.created_time p.db (id, db) e) refl

  launch-Settled :
      (Planned : AnalysisRun → Type 0) (source_run_id : String) (p : Planes)
      (planned : Result (String × AnalysisRun))
      → ((profile : String) (run : AnalysisRun)
          → planned ≡ ok (profile, run)
          → Fresh run × Planned run × (run.run_id ≡ c.run_id) × (run.created_at ≤ c.failed_time))
      → Settled Planned source_run_id p (launch sha256_of str source_run_id c p planned)
  launch-Settled Planned source_run_id p (err raised) h = inr (raised, refl, inl refl)
  launch-Settled Planned source_run_id p (ok (profile, run)) h =
      let (f, as_planned, named, late) = h profile run refl in
      admit-Settled Planned source_run_id run f as_planned named late profile p
        (create run c.created_time p.db) refl

  next_attempt-Fresh :
      (run_id profile : String) (db : Database) (previous run : AnalysisRun)
      → load run_id db ≡ ok previous
      → keyed_fields previous.parameters ≡ true
      → next_attempt sha256_of str run_id c db ≡ ok (profile, run)
      → Fresh run × Retries previous run × (run.run_id ≡ c.run_id) × (run.created_at ≡ c.run_time)
  next_attempt-Fresh run_id profile db previous run loaded keys h =
      let (old, found, h1) = >>=-eq-ok (load run_id db) _ h in
      let same : old ≡ previous = ok-injective (sym found ∙ loaded) in
      let (named, _, h2) = >>=-eq-ok (profile_of str old) _ h1 in
      let (retried, made, h3) = >>=-eq-ok (retry_from old no_arguments c.run_id c.run_time) _ h2 in
      let (staged, updated, h4) =
        >>=-eq-ok (with_stages retried (queued_stages (old.attempt_number + 1) named)) _ h3 in
      let last : staged ≡ run = ap (λ x. x.1) (ok-injective h4) in
      let stages = queued_stages (old.attempt_number + 1) named in
      let (fresh, mine, time) =
        staged-Fresh old retried staged stages c.run_id c.run_time made updated
          (subst (λ r. keyed_fields r.parameters ≡ true) (sym same) keys) in
      let follows = staged-Retries old retried staged stages c.run_id c.run_time made updated in
      rw (← last) (fresh, subst (λ r. Retries r staged) same follows, mine, time)

  cloned-Fresh :
      (run_id profile : String) (code : CodeReference) (db : Database) (previous run : AnalysisRun)
      → load run_id db ≡ ok previous
      → keyed_fields previous.parameters ≡ true
      → cloned sha256_of str run_id code c db ≡ ok (profile, run)
      → Fresh run
        × Clones previous code c.logical_analysis_id run
        × (run.run_id ≡ c.run_id)
        × (run.created_at ≡ c.run_time)
  cloned-Fresh run_id profile code db previous run loaded keys h =
      let (old, found, h1) = >>=-eq-ok (load run_id db) _ h in
      let same : old ≡ previous = ok-injective (sym found ∙ loaded) in
      let (named, _, h2) = >>=-eq-ok (profile_of str old) _ h1 in
      let (made, built, h3) =
        >>=-eq-ok (new (cloned_from old code named) c.logical_analysis_id c.run_id c.run_time) _
          h2 in
      let last : made ≡ run = ap (λ x. x.1) (ok-injective h3) in
      let (fresh, mine, time) =
        new-Fresh (cloned_from old code named) c.logical_analysis_id c.run_id c.run_time made built
          refl refl (subst (λ r. keyed_fields r.parameters ≡ true) (sym same) keys) in
      let copies =
        made-Clones old made code named c.logical_analysis_id c.run_id c.run_time built in
      rw (← last)
        (fresh, subst (λ r. Clones r code c.logical_analysis_id made) same copies, mine, time)

  -- A retry of a stored attempt either returns, with a well-formed queued attempt stored: the next one of the
  -- same analysis, after the old one, with its origin, input, code and configuration; its input is copied, and
  -- a job for it is queued. Or it raises and has changed nothing, or has stored the new attempt as failed. The
  -- keys of the old parameters are distinct, as in every dict, and the clock does not go back.
  pub retry-Settled :
      (run_id : String) (p : Planes) (previous : AnalysisRun)
      → load run_id p.db ≡ ok previous
      → keyed_fields previous.parameters ≡ true
      → c.run_time ≤ c.failed_time
      → Settled (Retries previous) run_id p (retry sha256_of str run_id c p)
  unfolding retry
  retry-Settled run_id p previous loaded keys late =
      launch-Settled (Retries previous) run_id p (next_attempt sha256_of str run_id c p.db)
        (λ profile run e.
          let (f, follows, named, time) =
            next_attempt-Fresh run_id profile p.db previous run loaded keys e in
          (f, follows, named, rw time late))

  -- A clone of a stored attempt either returns, with a well-formed queued attempt stored: the first one, without
  -- predecessor, of an analysis with a new id, with the origin, input and configuration of the old one and the
  -- code it is given; its input is copied, and a job for it is queued. Or it raises and has changed nothing, or
  -- has stored the new attempt as failed. The keys of the old parameters are distinct, as in every dict, and
  -- the clock does not go back.
  pub clone-Settled :
      (run_id : String) (code : CodeReference) (p : Planes) (previous : AnalysisRun)
      → load run_id p.db ≡ ok previous
      → keyed_fields previous.parameters ≡ true
      → c.run_time ≤ c.failed_time
      → Settled
          (Clones previous code c.logical_analysis_id)
          run_id
          p
          (clone sha256_of str run_id code c p)
  unfolding clone
  clone-Settled run_id code p previous loaded keys late =
      launch-Settled (Clones previous code c.logical_analysis_id) run_id p
        (cloned sha256_of str run_id code c p.db)
        (λ profile run e.
          let (f, follows, named, time) =
            cloned-Fresh run_id profile code p.db previous run loaded keys e in
          (f, follows, named, rw time late))
