-- ===== src/Queue/Settling.antt =====
-- Where the end of a claimed job leaves its file: `complete`, `fail` and `cancel` of
-- v2/src/footballai_v2/execution/queue/local_filesystem.py.
use technical_test_mitus_ai.Prelude.{
  String, ◌≡◌, refl, ap, ◌∙◌, inl, inr, true, false, some, List, [], ◌∷◌, ◌++◌, map, ◌==◌, nat_eq,
  string_eq, contains, Distinct, Bool-cases, ok, err, Result-cases, Error, text_eq_iff,
  text_eq_refl, >>-eq-ok, arith,
}
use technical_test_mitus_ai.Contract.Text.{validate_run_id, validate_uuid_v4}
use technical_test_mitus_ai.Queue.Jobs.{ExecutionJob, execution_job}
use technical_test_mitus_ai.Queue.Files.{
  Place, place_eq, place_number, queued, claimed, cancelled, readable, File, exists, lookup,
  names_in, move_raw, read,
}
use technical_test_mitus_ai.Queue.Local.{Queue, terminal_move, listing, cancel_from, cancel}
use technical_test_mitus_ai.Queue.Records.{
  records, exists-apart, lookup-exists, lookup-os_replace, move_raw-free,
}
use technical_test_mitus_ai.Queue.Conservation.{Orderly, read-ok, lookup-Own}
use technical_test_mitus_ai.Queue.Single.{one_name}
use technical_test_mitus_ai.Queue.Service.{Sound, run_ids, cancel-valid}

-- A claimed job moved to another directory is there.
pub terminal_move-exists :
    (p : Place) (job : ExecutionJob) (run_index : List String) (files : List File)
    → Orderly run_index files
    → claimed == p ≡ false
    → lookup claimed job.job_id files ≡ some (readable job)
    → exists p job.job_id (terminal_move p job files) ≡ true
unfolding terminal_move
terminal_move-exists p job run_index files sound other h =
    let here = lookup-exists claimed job.job_id (readable job) files h in
    let free = exists-apart claimed p job.job_id files sound.0 other here in
    rw (free, here)
      (lookup-exists p job.job_id (readable job) _
        (lookup-os_replace claimed p job.job_id (readable job) files free h))

read_valid : (job : ExecutionJob) → execution_job job ≡ ok job → read (some (readable job)) ≡ ok job
unfolding read
read_valid job valid = rw valid refl

module _ (run_id : String) (p : Place) (name : String) (sources : List (Place × String))
    (files : List File) where
  cancel_from-taken :
      (job : ExecutionJob)
      → read (lookup p name files) ≡ ok job
      → job.run_id == run_id ≡ true
      → cancel_from run_id ((p, name) ∷ sources) files
        ≡ (true, move_raw p name cancelled job.job_id files)
  unfolding cancel_from
  cancel_from-taken job found same = rw (cancel_from, found, same) refl

  cancel_from-other :
      (job : ExecutionJob)
      → read (lookup p name files) ≡ ok job
      → job.run_id == run_id ≡ false
      → cancel_from run_id ((p, name) ∷ sources) files ≡ cancel_from run_id sources files
  unfolding cancel_from
  cancel_from-other job found apart = rw (cancel_from, found, apart) refl

  cancel_from-unread :
      (e : Error)
      → read (lookup p name files) ≡ err e
      → cancel_from run_id ((p, name) ∷ sources) files ≡ cancel_from run_id sources files
  unfolding cancel_from
  cancel_from-unread e found = rw (cancel_from, found) refl

module _ (files : List File) (run_index : List String) (job : ExecutionJob)
    (sound : Orderly run_index files) (single : Distinct (run_ids (records files)))
    (there : lookup claimed job.job_id files ≡ some (readable job)) where
  abbrev Cancelled : List (Place × String) → Type 0
  Cancelled sources =
      ((cancel_from job.run_id sources files).0 ≡ true)
      × (exists cancelled job.job_id (cancel_from job.run_id sources files).1 ≡ true)

  move_raw-exists :
      (p : Place) (name : String) (job' : ExecutionJob)
      → p == cancelled ≡ false
      → read (lookup p name files) ≡ ok job'
      → job'.run_id == job.run_id ≡ true
      → exists cancelled job.job_id (move_raw p name cancelled job'.job_id files) ≡ true
  move_raw-exists p name job' other found same =
      let stored = read-ok (lookup p name files) job' found in
      let run = (text_eq_iff job'.run_id job.run_id).0 same in
      let named = one_name p claimed name job.job_id job' job files single stored there run in
      let mine = lookup-Own run_index p name job' files sound.1 stored ∙ named in
      let stored' : lookup p job.job_id files ≡ some (readable job') = rw (← named) stored in
      let here = lookup-exists p job.job_id (readable job') files stored' in
      let free = exists-apart p cancelled job.job_id files sound.0 other here in
      rw
        (ap (λ m. move_raw p name cancelled m files) mine
          ∙ ap (λ m. move_raw p m cancelled job.job_id files) named
          ∙ move_raw-free p cancelled job.job_id job.job_id files free)
        (lookup-exists cancelled job.job_id (readable job') _
          (lookup-os_replace p cancelled job.job_id (readable job') files free stored'))

  pass_source :
      (p : Place) (name : String) (sources : List (Place × String))
      → p == cancelled ≡ false
      → Cancelled sources
      → Cancelled ((p, name) ∷ sources)
  pass_source p name sources other rest = elim (Result-cases (read (lookup p name files))) [
    | inr (e, found) ↦ rw (cancel_from-unread job.run_id p name sources files e found) rest
    | inl (job', found) ↦ elim (Bool-cases (job'.run_id == job.run_id)) [
      | inl same ↦
          rw (cancel_from-taken job.run_id p name sources files job' found same)
            (refl, move_raw-exists p name job' other found same)
      | inr apart ↦ rw (cancel_from-other job.run_id p name sources files job' found apart) rest
    ]
  ]

  pass_all :
      (p : Place) (names : List String) (sources : List (Place × String))
      → p == cancelled ≡ false
      → Cancelled sources
      → Cancelled (map (λ n. (p, n)) names ++ sources)
  pass_all p [] sources other rest = rest
  pass_all p (name ∷ names) sources other rest =
      pass_source p name (map (λ n. (p, n)) names ++ sources) other
        (pass_all p names sources other rest)

  find_claimed :
      (names : List String)
      → execution_job job ≡ ok job
      → contains names job.job_id ≡ true
      → Cancelled (map (λ n. (claimed, n)) names)
  unfolding contains place_number
  find_claimed [] valid h = cc
  find_claimed (name ∷ names) valid h = elim (Bool-cases (name == job.job_id)) [
    | inr other ↦
        pass_source claimed name (map (λ n. (claimed, n)) names) refl
          (find_claimed names valid (rw other at h))
    | inl mine ↦
        let named = (text_eq_iff name job.job_id).0 mine in
        let found : read (lookup claimed name files) ≡ ok job =
          rw (named, there) (read_valid job valid) in
        rw
          (cancel_from-taken job.run_id claimed name (map (λ n. (claimed, n)) names) files job found
            (text_eq_refl job.run_id))
          (refl, move_raw-exists claimed name job refl found (text_eq_refl job.run_id))
  ]

contains-names_in :
    (p : Place) (n : String) (files : List File)
    → exists p n files ≡ true
    → contains (names_in p files) n ≡ true
unfolding contains exists
contains-names_in p n [] h = cc
contains-names_in p n (f ∷ files) h = ground (arith, contains-names_in p n files)

queued_not-cancelled : queued == cancelled ≡ false
unfolding place_number
queued_not-cancelled = refl

execution_job-run_id :
    (job made : ExecutionJob) → execution_job job ≡ ok made → validate_run_id job.run_id ≡ ok tt
unfolding execution_job
execution_job-run_id job made h =
    let h1 = (>>-eq-ok (validate_uuid_v4 job.job_id) _ h).1 in
    (>>-eq-ok (validate_run_id job.run_id) _ h1).0

cancel-found :
    (run_id : String) (q : Queue)
    → validate_run_id run_id ≡ ok tt
    → (cancel run_id q).0
      ≡ ok (cancel_from run_id (listing queued q.files ++ listing claimed q.files) q.files).0
unfolding cancel
cancel-found run_id q known = rw (known, cancel) refl

-- `cancel` finds a claimed job by its run and moves it to `cancelled`.
pub cancel-exists :
    (q : Queue) (job : ExecutionJob)
    → Sound q
    → lookup claimed job.job_id q.files ≡ some (readable job)
    → execution_job job ≡ ok job
    → ((cancel job.run_id q).0 ≡ ok true)
      × (exists cancelled job.job_id (cancel job.run_id q).1.files ≡ true)
cancel-exists q job sound there valid =
    let (orderly, single) = sound in
    let claims = names_in claimed q.files in
    let listed =
      contains-names_in claimed job.job_id q.files
        (lookup-exists claimed job.job_id (readable job) q.files there) in
    let done =
      pass_all q.files q.run_index job orderly single there queued (names_in queued q.files)
        (listing claimed q.files) queued_not-cancelled
        (find_claimed q.files q.run_index job orderly single there claims valid listed) in
    let known = execution_job-run_id job job valid in
    (
      cancel-found job.run_id q known ∙ ap (λ b. ok b) done.0,
      rw (cancel-valid job.run_id tt q known) done.1,
    )
