-- ===== src/Queue/Recovery.antt =====
-- What `recover_abandoned` of v2/src/footballai_v2/execution/queue/local_filesystem.py does to the jobs.
use technical_test_mitus_ai.Prelude.{
  ℕ, ◌+◌, String, ◌≡◌, refl, ap, ◌∙◌, inl, inr, some, List, [], ◌∷◌, Bool-cases, Error, ok, err,
  Result-cases,
}
use technical_test_mitus_ai.Contract.Run.{AnalysisRun, AnalysisRunStatus, is_terminal}
use technical_test_mitus_ai.Repository.{load}
use technical_test_mitus_ai.Repository.Tables.{Database}
use technical_test_mitus_ai.Queue.Jobs.{ExecutionJob, unstamp}
use technical_test_mitus_ai.Queue.Files.{
  place_eq, place_number, queued, claimed, failed, readable, File, lookup, os_replace,
  write_replace, move_raw, read,
}
use technical_test_mitus_ai.Queue.Local.{
  settled_place, recover_job, recover_one, recover_from, is_abandoned,
}
use technical_test_mitus_ai.Queue.Records.{
  records, exists-apart, lookup-exists, os_replace-records, move_raw-free, move_raw-records,
  write_replace-records, lookup-os_replace,
}
use technical_test_mitus_ai.Queue.Conservation.{Orderly, read-ok, lookup-Own, settled_place-other}

requeue-records :
    (name : String) (job : ExecutionJob) (run_index : List String) (files : List File)
    → Orderly run_index files
    → lookup claimed name files ≡ some (readable job)
    → records (
        write_replace queued job.job_id
          (unstamp job)
          (move_raw claimed name queued job.job_id files))
      ≡ records files
unfolding move_raw place_number
requeue-records name job run_index files sound h =
    let mine = lookup-Own run_index claimed name job files sound.1 h in
    let free =
      exists-apart claimed queued name files sound.0 refl
        (lookup-exists claimed name (readable job) files h) in
    let moved = os_replace-records claimed queued name files free in
    ap (λ n. records (write_replace queued n (unstamp job) (move_raw claimed name queued n files)))
      mine
    ∙ ap (λ fs. records (write_replace queued name (unstamp job) fs))
        (move_raw-free claimed queued name name files free)
    ∙ write_replace-records queued name (unstamp job) job
        (os_replace claimed name queued name files) (rw moved sound.0)
        (lookup-os_replace claimed queued name (readable job) files free h) refl
    ∙ moved

recover_job-records :
    (cutoff : ℕ) (name : String) (job : ExecutionJob) (status : AnalysisRunStatus)
    (run_index : List String) (files : List File)
    → Orderly run_index files
    → lookup claimed name files ≡ some (readable job)
    → records (recover_job cutoff name job status files).1 ≡ records files
unfolding recover_job
recover_job-records cutoff name job status run_index files sound h =
    let mine = lookup-Own run_index claimed name job files sound.1 h in
    elim (Bool-cases (is_terminal status)) [
      | inl done ↦ rw done (
          ap (λ n. records (move_raw claimed name (settled_place status) n files)) mine
          ∙ move_raw-records claimed (settled_place status) name files sound.0
              (settled_place-other status))
      | inr active ↦ rw active (elim (Bool-cases (is_abandoned cutoff job.claimed_at)) [
        | inl old ↦ rw old (requeue-records name job run_index files sound h)
        | inr fresh ↦ rw fresh refl
      ])
    ]

pub recover_one-run :
    (cutoff : ℕ) (store : Database) (name : String) (files : List File) (job : ExecutionJob)
    (run : AnalysisRun)
    → read (lookup claimed name files) ≡ ok job
    → load job.run_id store ≡ ok run
    → recover_one cutoff store name files ≡ recover_job cutoff name job run.status files
unfolding recover_one
recover_one-run cutoff store name files job run found loaded =
    rw (found, recover_one) (rw loaded refl)

pub recover_one-lost :
    (cutoff : ℕ) (store : Database) (name : String) (files : List File) (job : ExecutionJob)
    (raised : Error)
    → read (lookup claimed name files) ≡ ok job
    → load job.run_id store ≡ err raised
    → recover_one cutoff store name files ≡ (0, move_raw claimed name failed name files)
unfolding recover_one
recover_one-lost cutoff store name files job raised found lost =
    rw (found, recover_one) (rw lost refl)

pub recover_one-unread :
    (cutoff : ℕ) (store : Database) (name : String) (files : List File) (raised : Error)
    → read (lookup claimed name files) ≡ err raised
    → recover_one cutoff store name files ≡ (0, move_raw claimed name failed name files)
unfolding recover_one
recover_one-unread cutoff store name files raised found = rw (found, recover_one) refl

recover_one-records :
    (cutoff : ℕ) (store : Database) (name : String) (run_index : List String) (files : List File)
    → Orderly run_index files
    → records (recover_one cutoff store name files).1 ≡ records files
unfolding place_number
recover_one-records cutoff store name run_index files sound =
    let aside = move_raw-records claimed failed name files sound.0 refl in
    elim (Result-cases (read (lookup claimed name files))) [
      | inl (job, found) ↦ elim (Result-cases (load job.run_id store)) [
        | inl (run, loaded) ↦
            ap (λ r. records r.1) (recover_one-run cutoff store name files job run found loaded)
            ∙ recover_job-records cutoff name job run.status run_index files sound
                (read-ok (lookup claimed name files) job found)
        | inr (raised, lost) ↦
            ap (λ r. records r.1) (recover_one-lost cutoff store name files job raised found lost)
            ∙ aside
      ]
      | inr (raised, found) ↦
          ap (λ r. records r.1) (recover_one-unread cutoff store name files raised found) ∙ aside
    ]

pub recover_from-records :
    (cutoff : ℕ) (store : Database) (sources : List String) (run_index : List String)
    (recovered : ℕ) (files : List File)
    → Orderly run_index files
    → records (recover_from cutoff store sources (recovered, files)).1 ≡ records files
unfolding recover_from
recover_from-records cutoff store [] run_index recovered files sound = refl
recover_from-records cutoff store (name ∷ sources) run_index recovered files sound =
    let once = recover_one cutoff store name files in
    let kept = recover_one-records cutoff store name run_index files sound in
    recover_from-records cutoff store sources run_index (recovered + once.0) once.1 (rw kept sound)
    ∙ kept
