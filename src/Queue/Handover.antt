-- ===== src/Queue/Handover.antt =====
-- What `claim` of v2/src/footballai_v2/execution/queue/local_filesystem.py hands to a worker, and leaves.
use technical_test_mitus_ai.Prelude.{
  ℕ, String, ◌≡◌, refl, ap, subst, inl, inr, false, none, some, List, [], ◌∷◌, nat_eq, string_eq,
  contains, Bool-cases, ok, Result-cases, ok-injective, >>-eq-ok, require, forbid, ltb, value_error,
  Option,
}
use technical_test_mitus_ai.Contract.Text.{validate_run_id, validate_uuid_v4}
use technical_test_mitus_ai.Queue.Jobs.{
  ExecutionJob, execution_job, execution_job-ok, is_bad_worker, profiles, stamp,
}
use technical_test_mitus_ai.Queue.Files.{
  place_eq, queued, Entry, unreadable, readable, File, lookup, names_in, read,
}
use technical_test_mitus_ai.Queue.Local.{Queue, set_aside, claim_from, claim, sort_names}
use technical_test_mitus_ai.Queue.Conservation.{claim_from-found, claim_from-passed}
use technical_test_mitus_ai.Queue.Claims.{claim_from-none}
use technical_test_mitus_ai.Queue.Service.{
  Sound, serve, serve-records, call_claim, claim-fine, claim-bad,
}

-- A claimed job is a valid record.
stamp-valid :
    (worker_id : String) (now : ℕ) (job : ExecutionJob)
    → is_bad_worker worker_id ≡ false
    → execution_job job ≡ ok job
    → execution_job (stamp worker_id now job) ≡ ok (stamp worker_id now job)
unfolding execution_job
stamp-valid worker_id now job fine h =
    let h1 = >>-eq-ok (validate_uuid_v4 job.job_id) _ h in
    let h2 = >>-eq-ok (validate_run_id job.run_id) _ h1.1 in
    let h3 = >>-eq-ok (validate_uuid_v4 job.logical_analysis_id) _ h2.1 in
    let h4 = >>-eq-ok (forbid (ltb job.attempt_number 1) value_error) _ h3.1 in
    let h5 = >>-eq-ok (require (contains profiles job.pipeline_profile) value_error) _ h4.1 in
    rw (h1.0, h2.0, h3.0, h4.0, h5.0, fine) refl

read_ok-valid :
    (o : Option Entry) (job : ExecutionJob) → read o ≡ ok job → execution_job job ≡ ok job
unfolding read
read_ok-valid none job h = cc
read_ok-valid (some unreadable) job h = cc
read_ok-valid (some (readable found)) job h = elim (Result-cases (execution_job found)) [
  | inl (made, fine) ↦
      let same = execution_job-ok found made fine in
      let here : made ≡ job = cc (rw fine at h) in rw (← here) (rw same at fine)
  | inr (e, bad) ↦ cc (rw bad at h)
]

claim_from-valid :
    (worker_id : String) (now : ℕ) (sources : List String) (files : List File) (job : ExecutionJob)
    → is_bad_worker worker_id ≡ false
    → (claim_from worker_id now sources files).0 ≡ some job
    → execution_job job ≡ ok job
claim_from-valid worker_id now [] files job fine h =
    cc (ap (λ r. r.0) (claim_from-none worker_id now files), h)
claim_from-valid worker_id now (name ∷ sources) files job fine h =
    elim (Result-cases (read (lookup queued name files))) [
      | inl (old, found) ↦
          let step = claim_from-found worker_id now name sources files old found in
          let same : stamp worker_id now old ≡ job = cc (ap (λ r. r.0) step, h) in
          subst (λ j. execution_job j ≡ ok j) same
            (stamp-valid worker_id now old fine
              (read_ok-valid (lookup queued name files) old found))
      | inr (e, found) ↦
          let step = claim_from-passed worker_id now name sources files e found in
          claim_from-valid worker_id now sources (set_aside name files) job fine (rw step at h)
    ]

pub claim-valid :
    (worker_id : String) (now : ℕ) (q : Queue) (job : ExecutionJob)
    → (claim worker_id now q).0 ≡ ok (some job)
    → execution_job job ≡ ok job
claim-valid worker_id now q job h = elim (Bool-cases (is_bad_worker worker_id)) [
  | inl bad ↦ cc (ap (λ r. r.0) (claim-bad worker_id now q bad), h)
  | inr fine ↦
      let step = claim-fine worker_id now q fine in
      claim_from-valid worker_id now (sort_names (names_in queued q.files)) q.files job fine
        (ok-injective (rw step at h))
]

claim-run_index :
    (worker_id : String) (now : ℕ) (q : Queue) → (claim worker_id now q).1.run_index ≡ q.run_index
claim-run_index worker_id now q = elim (Bool-cases (is_bad_worker worker_id)) [
  | inl bad ↦ ap (λ r. r.1.run_index) (claim-bad worker_id now q bad)
  | inr fine ↦ ap (λ r. r.1.run_index) (claim-fine worker_id now q fine)
]

pub claim-Sound :
    (worker_id : String) (now : ℕ) (q : Queue) → Sound q → Sound (claim worker_id now q).1
unfolding serve
claim-Sound worker_id now q sound =
    let kept = serve-records (call_claim worker_id now) q tt sound.0 in
    rw (claim-run_index worker_id now q, kept) sound
