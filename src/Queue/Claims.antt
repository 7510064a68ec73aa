-- ===== src/Queue/Claims.antt =====
-- What `claim` of v2/src/footballai_v2/execution/queue/local_filesystem.py hands to a worker.
use technical_test_mitus_ai.Prelude.{
  ℕ, String, ◌≡◌, refl, ap, ◌∙◌, subst, ok-injective, inl, inr, true, false, none, some, List, [],
  ◌∷◌, nat_eq, string_eq, Distinct, Bool-cases, ok, Result-cases,
}
use technical_test_mitus_ai.Queue.Jobs.{ExecutionJob, is_bad_worker, stamp}
use technical_test_mitus_ai.Queue.Files.{
  Place, place_eq, place_number, queued, claimed, failed, Entry, readable, File, at, exists, lookup,
  names_in, unlink, relabel, os_replace, write_replace, move_raw, read,
}
use technical_test_mitus_ai.Queue.Local.{Queue, take, set_aside, sort_names, claim_from, claim}
use technical_test_mitus_ai.Queue.Records.{
  records, names, exists-apart, lookup-exists, lookup-os_replace, at-name, absent_of, unlink-absent,
}
use technical_test_mitus_ai.Queue.Conservation.{
  Orderly, read-ok, lookup-Own, take-records, set_aside-records, claim_from-found,
  claim_from-passed,
}
use technical_test_mitus_ai.Queue.Service.{claim-fine, claim-bad}

lookup_later :
    (p : Place) (n : String) (e : Entry) (f : File) (files : List File)
    → Distinct (names (records (f ∷ files)))
    → lookup p n files ≡ some e
    → lookup p n (f ∷ files) ≡ some e
lookup_later p n e f files d h = elim (Bool-cases (at p n f)) [
  | inl here ↦ cc (absent_of p n files (rw (← at-name p n f here) d.0), lookup-exists p n e files h)
  | inr there ↦ rw there h
]

-- A file that left its directory is not found there, and the others are.
lookup_of-relabel :
    (n m : String) (e : Entry) (files : List File)
    → Distinct (names (records files))
    → lookup queued n (relabel queued m failed m files) ≡ some e
    → lookup queued n files ≡ some e
unfolding relabel place_number
lookup_of-relabel n m e [] d h = cc h
lookup_of-relabel n m e (f ∷ files) d h = elim (Bool-cases (at queued m f)) [
  | inl here ↦ lookup_later queued n e f files d (lookup_of-relabel n m e files d.1 (rw here at h))
  | inr there ↦ elim (Bool-cases (at queued n f)) [
    | inl mine ↦ rw mine (rw mine at (rw there at h))
    | inr other ↦ rw other (lookup_of-relabel n m e files d.1 (rw other at (rw there at h)))
  ]
]

lookup_of-unlink :
    (n m : String) (e : Entry) (files : List File)
    → Distinct (names (records files))
    → lookup queued n (unlink queued m files) ≡ some e
    → lookup queued n files ≡ some e
unfolding unlink
lookup_of-unlink n m e [] d h = cc h
lookup_of-unlink n m e (f ∷ files) d h = elim (Bool-cases (at queued m f)) [
  | inl here ↦ lookup_later queued n e f files d (lookup_of-unlink n m e files d.1 (rw here at h))
  | inr there ↦ elim (Bool-cases (at queued n f)) [
    | inl mine ↦ rw mine (rw mine at (rw there at h))
    | inr other ↦ rw other (lookup_of-unlink n m e files d.1 (rw other at (rw there at h)))
  ]
]

lookup_of-set_aside :
    (n m : String) (e : Entry) (files : List File)
    → Distinct (names (records files))
    → lookup queued n (set_aside m files) ≡ some e
    → lookup queued n files ≡ some e
unfolding set_aside move_raw os_replace place_number
lookup_of-set_aside n m e files d h = elim (Bool-cases (exists queued m files)) [
  | inl here ↦
      let free = exists-apart queued failed m files d refl here in
      lookup_of-relabel n m e files d
        (rw (unlink-absent failed m files free) at (rw free at (rw here at h)))
  | inr gone ↦ rw gone at h
]

lookup-write_replace :
    (p : Place) (n : String) (job : ExecutionJob) (files : List File)
    → exists p n files ≡ true
    → lookup p n (write_replace p n job files) ≡ some (readable job)
unfolding write_replace exists
lookup-write_replace p n job [] h = cc h
lookup-write_replace p n job (f ∷ files) h = elim (Bool-cases (at p n f)) [
  | inl here ↦ rw here (rw here refl)
  | inr there ↦ rw there (rw there (lookup-write_replace p n job files (rw there at h)))
]

-- The job was queued; it bears the worker and the time of the claim, is in `claimed`, and not in
-- `queued` any more.
abbrev pub Claimed : String → ℕ → ExecutionJob → List File → List File → Type 0
Claimed worker_id now job before after =
    (old : ExecutionJob) × (lookup queued job.job_id before ≡ some (readable old))
    × (job ≡ stamp worker_id now old)
    × (lookup claimed job.job_id after ≡ some (readable job))
    × (exists queued job.job_id after ≡ false)

take_own-Claimed :
    (worker_id : String) (now : ℕ) (job : ExecutionJob) (run_index : List String)
    (files : List File)
    → Orderly run_index files
    → lookup queued job.job_id files ≡ some (readable job)
    → Claimed worker_id now
        (stamp worker_id now job)
        files
        (take job.job_id (stamp worker_id now job) files)
unfolding place_number take
take_own-Claimed worker_id now job run_index files sound h =
    let stamped = stamp worker_id now job in
    let free =
      exists-apart queued claimed job.job_id files sound.0 refl
        (lookup-exists queued job.job_id (readable job) files h) in
    let moved = lookup-os_replace queued claimed job.job_id (readable job) files free h in
    let written : lookup claimed job.job_id (take job.job_id stamped files)
        ≡ some (readable stamped) =
      lookup-write_replace claimed job.job_id stamped
        (os_replace queued job.job_id claimed job.job_id files)
        (lookup-exists claimed job.job_id (readable job)
          (os_replace queued job.job_id claimed job.job_id files) moved) in
    (
      job,
      h,
      refl,
      written,
      exists-apart claimed queued job.job_id (take job.job_id stamped files)
          (rw (take-records job.job_id worker_id now job run_index files sound h) sound.0) refl
          (lookup-exists claimed job.job_id (readable stamped) (take job.job_id stamped files)
            written),
    )

take-Claimed :
    (name worker_id : String) (now : ℕ) (job : ExecutionJob) (run_index : List String)
    (files : List File)
    → Orderly run_index files
    → lookup queued name files ≡ some (readable job)
    → Claimed worker_id now
        (stamp worker_id now job)
        files
        (take name (stamp worker_id now job) files)
take-Claimed name worker_id now job run_index files sound h =
    let mine = lookup-Own run_index queued name job files sound.1 h in
    subst
      (λ n.
        Claimed worker_id now (stamp worker_id now job) files
          (take n (stamp worker_id now job) files))
      mine
      (take_own-Claimed worker_id now job run_index files sound
        (ap (λ n. lookup queued n files) mine ∙ h))

pub claim_from-none :
    (worker_id : String) (now : ℕ) (files : List File)
    → claim_from worker_id now [] files ≡ (none, files)
unfolding claim_from
claim_from-none worker_id now files = refl

claim_from-Claimed :
    (worker_id : String) (now : ℕ) (sources run_index : List String) (job : ExecutionJob)
    (files : List File)
    → Orderly run_index files
    → (claim_from worker_id now sources files).0 ≡ some job
    → Claimed worker_id now job files (claim_from worker_id now sources files).1
claim_from-Claimed worker_id now [] run_index job files sound h =
    cc (ap (λ r. r.0) (claim_from-none worker_id now files), h)
claim_from-Claimed worker_id now (name ∷ sources) run_index job files sound h =
    elim (Result-cases (read (lookup queued name files))) [
      | inl (old, found) ↦
          let step = claim_from-found worker_id now name sources files old found in
          let same : stamp worker_id now old ≡ job = cc (ap (λ r. r.0) step, h) in
          rw step (
            subst (λ j. Claimed worker_id now j files (take name (stamp worker_id now old) files))
              same
              (take-Claimed name worker_id now old run_index files sound
                (read-ok (lookup queued name files) old found)))
      | inr (raised, found) ↦
          let step = claim_from-passed worker_id now name sources files raised found in
          let aside = set_aside-records name files sound.0 in
          let (old, queued_there, stamped, written, gone) =
            claim_from-Claimed worker_id now sources run_index job (set_aside name files)
              (rw aside sound) (rw step at h) in
          rw step (
            old,
            lookup_of-set_aside job.job_id name (readable old) files sound.0 queued_there,
            stamped,
            written,
            gone,
          )
    ]

-- From a state in which names are unique and each record is under its own id, a claim that returns
-- a job had found it in `queued`, returns it with the worker and the time of the claim, and leaves it
-- so in `claimed` and no longer in `queued`, where no other claim finds it.
pub claim-Claimed :
    (worker_id : String) (now : ℕ) (job : ExecutionJob) (q : Queue)
    → Orderly q.run_index q.files
    → (claim worker_id now q).0 ≡ ok (some job)
    → Claimed worker_id now job q.files (claim worker_id now q).1.files
claim-Claimed worker_id now job q sound h = elim (Bool-cases (is_bad_worker worker_id)) [
  | inl bad ↦ cc (ap (λ r. r.0) (claim-bad worker_id now q bad), h)
  | inr fine ↦
      let step = claim-fine worker_id now q fine in
      let sources = sort_names (names_in queued q.files) in
      rw step (
        claim_from-Claimed worker_id now sources q.run_index job q.files sound
          (ok-injective (rw step at h)))
]
