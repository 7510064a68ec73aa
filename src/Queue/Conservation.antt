-- ===== src/Queue/Conservation.antt =====
-- What the methods of v2/src/footballai_v2/execution/queue/local_filesystem.py do to the jobs.
use technical_test_mitus_ai.Prelude.{
  ℕ, String, ◌≡◌, refl, ap, ◌∙◌, inl, inr, true, false, none, some, List, [], ◌∷◌, ◌==◌, string_eq,
  contains, Distinct, All, Bool-cases, Error, ok, err, Result-cases, Option,
}
use technical_test_mitus_ai.Contract.Run.{AnalysisRunStatus}
use technical_test_mitus_ai.Queue.Jobs.{ExecutionJob, execution_job, execution_job-ok, stamp}
use technical_test_mitus_ai.Queue.Files.{
  Place, place_eq, place_number, queued, claimed, failed, cancelled, Entry, unreadable, readable,
  File, at, exists, lookup, os_replace, write_replace, move_raw, read,
}
use technical_test_mitus_ai.Queue.Local.{
  take, set_aside, claim_from, terminal_move, cancel_from, settled_place,
}
use technical_test_mitus_ai.Queue.Records.{
  Record, records, names, exists-apart, lookup-exists, os_replace-records, move_raw-records,
  write_replace-records, lookup-os_replace, at-name,
}

-- A readable entry stands under its job's id, and its run is reserved.
abbrev pub Own : List String → Record → Type 0
Own run_index (n, unreadable) = Unit
Own run_index (n, readable job) = (job.job_id ≡ n) × (contains run_index job.run_id ≡ true)

abbrev pub Orderly : List String → List File → Type 0
Orderly run_index files = Distinct (names (records files)) × All (Own run_index) (records files)

pub read-ok : (o : Option Entry) (job : ExecutionJob) → read o ≡ ok job → o ≡ some (readable job)
unfolding read
read-ok none job h = cc
read-ok (some unreadable) job h = cc
read-ok (some (readable found)) job h = elim (Result-cases (execution_job found)) [
  | inl (made, fine) ↦ cc (execution_job-ok found made fine, rw fine at h)
  | inr (raised, bad) ↦ cc (rw bad at h)
]

pub lookup-Own :
    (run_index : List String) (p : Place) (n : String) (job : ExecutionJob) (files : List File)
    → All (Own run_index) (records files)
    → lookup p n files ≡ some (readable job)
    → job.job_id ≡ n
lookup-Own run_index p n job [] own h = cc
lookup-Own run_index p n job (f ∷ files) own h = elim (Bool-cases (at p n f)) [
  | inl here ↦
      let mine : f.content ≡ readable job = cc (rw here at h) in
      (rw mine at own.0).0 ∙ at-name p n f here
  | inr there ↦ lookup-Own run_index p n job files own.1 (rw there at h)
]

-- What `take` does to a queued job that `read` accepts.
pub take-records :
    (name : String) (worker_id : String) (now : ℕ) (job : ExecutionJob) (run_index : List String)
    (files : List File)
    → Orderly run_index files
    → lookup queued name files ≡ some (readable job)
    → records (take name (stamp worker_id now job) files) ≡ records files
unfolding take place_number
take-records name worker_id now job run_index files sound h =
    let mine = lookup-Own run_index queued name job files sound.1 h in
    let free =
      exists-apart queued claimed name files sound.0 refl
        (lookup-exists queued name (readable job) files h) in
    let moved = os_replace-records queued claimed name files free in
    ap
      (λ n. records (
        write_replace claimed n (stamp worker_id now job) (os_replace queued name claimed n files)))
      mine
    ∙ write_replace-records claimed name (stamp worker_id now job) job
        (os_replace queued name claimed name files) (rw moved sound.0)
        (lookup-os_replace queued claimed name (readable job) files free h) refl
    ∙ moved

pub set_aside-records :
    (name : String) (files : List File)
    → Distinct (names (records files))
    → records (set_aside name files) ≡ records files
unfolding set_aside place_number
set_aside-records name files d = elim (Bool-cases (exists queued name files)) [
  | inl here ↦ rw here (move_raw-records queued failed name files d refl)
  | inr gone ↦ rw gone refl
]

pub claim_from-found :
    (worker_id : String) (now : ℕ) (name : String) (sources : List String) (files : List File)
    (job : ExecutionJob)
    → read (lookup queued name files) ≡ ok job
    → claim_from worker_id now (name ∷ sources) files
      ≡ (some (stamp worker_id now job), take name (stamp worker_id now job) files)
unfolding claim_from
claim_from-found worker_id now name sources files job found = rw (found, claim_from) refl

pub claim_from-passed :
    (worker_id : String) (now : ℕ) (name : String) (sources : List String) (files : List File)
    (raised : Error)
    → read (lookup queued name files) ≡ err raised
    → claim_from worker_id now (name ∷ sources) files
      ≡ claim_from worker_id now sources (set_aside name files)
unfolding claim_from
claim_from-passed worker_id now name sources files raised found = rw (found, claim_from) refl

pub claim_from-records :
    (worker_id : String) (now : ℕ) (sources : List String) (run_index : List String)
    (files : List File)
    → Orderly run_index files
    → records (claim_from worker_id now sources files).1 ≡ records files
unfolding claim_from
claim_from-records worker_id now [] run_index files sound = refl
claim_from-records worker_id now (name ∷ sources) run_index files sound =
    elim (Result-cases (read (lookup queued name files))) [
      | inl (job, found) ↦
          ap (λ r. records r.1) (claim_from-found worker_id now name sources files job found)
          ∙ take-records name worker_id now job run_index files sound
              (read-ok (lookup queued name files) job found)
      | inr (raised, found) ↦
          let aside = set_aside-records name files sound.0 in
          ap (λ r. records r.1) (claim_from-passed worker_id now name sources files raised found)
          ∙ claim_from-records worker_id now sources run_index (set_aside name files)
              (rw aside sound)
          ∙ aside
    ]

pub terminal_move-records :
    (state : Place) (job : ExecutionJob) (files : List File)
    → records (terminal_move state job files) ≡ records files
unfolding terminal_move
terminal_move-records state job files = elim (Bool-cases (exists state job.job_id files)) [
  | inl there ↦ rw there refl
  | inr free ↦ rw free (elim (Bool-cases (exists claimed job.job_id files)) [
    | inl here ↦ rw here (os_replace-records claimed state job.job_id files free)
    | inr gone ↦ rw gone refl
  ])
]

pub cancel_from-hit :
    (run_id : String) (p : Place) (name : String) (sources : List (Place × String))
    (files : List File) (job : ExecutionJob)
    → read (lookup p name files) ≡ ok job
    → job.run_id == run_id ≡ true
    → cancel_from run_id ((p, name) ∷ sources) files
      ≡ (true, move_raw p name cancelled job.job_id files)
unfolding cancel_from
cancel_from-hit run_id p name sources files job found mine = rw (found, cancel_from) (rw mine refl)

pub cancel_from-other :
    (run_id : String) (p : Place) (name : String) (sources : List (Place × String))
    (files : List File) (job : ExecutionJob)
    → read (lookup p name files) ≡ ok job
    → job.run_id == run_id ≡ false
    → cancel_from run_id ((p, name) ∷ sources) files ≡ cancel_from run_id sources files
unfolding cancel_from
cancel_from-other run_id p name sources files job found other =
    rw (found, cancel_from) (rw other refl)

pub cancel_from-unread :
    (run_id : String) (p : Place) (name : String) (sources : List (Place × String))
    (files : List File) (raised : Error)
    → read (lookup p name files) ≡ err raised
    → cancel_from run_id ((p, name) ∷ sources) files ≡ cancel_from run_id sources files
unfolding cancel_from
cancel_from-unread run_id p name sources files raised found = rw (found, cancel_from) refl

-- The sources that `cancel` lists stand in `queued` and `claimed`.
abbrev pub Active : List (Place × String) → Type 0
Active [] = Unit
Active ((p, n) ∷ sources) = (cancelled == p ≡ false) × Active sources

pub cancel_from-records :
    (run_id : String) (sources : List (Place × String)) (run_index : List String)
    (files : List File)
    → Active sources
    → Orderly run_index files
    → records (cancel_from run_id sources files).1 ≡ records files
unfolding cancel_from
cancel_from-records run_id [] run_index files active sound = refl
cancel_from-records run_id ((p, name) ∷ sources) run_index files active sound =
    let later = cancel_from-records run_id sources run_index files active.1 sound in
    elim (Result-cases (read (lookup p name files))) [
      | inl (job, found) ↦ elim (Bool-cases (job.run_id == run_id)) [
        | inl mine ↦
            let own =
              lookup-Own run_index p name job files sound.1
                (read-ok (lookup p name files) job found) in
            ap (λ r. records r.1) (cancel_from-hit run_id p name sources files job found mine)
            ∙ rw own (move_raw-records p cancelled name files sound.0 active.0)
        | inr other ↦
            ap (λ r. records r.1) (cancel_from-other run_id p name sources files job found other)
            ∙ later
      ]
      | inr (raised, found) ↦
          ap (λ r. records r.1) (cancel_from-unread run_id p name sources files raised found)
          ∙ later
    ]

pub settled_place-other : (status : AnalysisRunStatus) → settled_place status == claimed ≡ false
unfolding place_number
settled_place-other AnalysisRunStatus.queued = refl
settled_place-other AnalysisRunStatus.running = refl
settled_place-other AnalysisRunStatus.succeeded = refl
settled_place-other AnalysisRunStatus.partial = refl
settled_place-other AnalysisRunStatus.failed = refl
settled_place-other AnalysisRunStatus.cancelled = refl
