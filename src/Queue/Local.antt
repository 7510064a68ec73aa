-- ===== src/Queue/Local.antt =====
-- The methods of `LocalFilesystemQueue` in v2/src/footballai_v2/execution/queue/local_filesystem.py.
-- A method is one step from a queue to its result and a queue. An `ExecutionJob` object has passed its
-- checks, so `_path` has nothing to refuse.
use Prim.Native.String.{compare}
use Prim.Native.Nat.{Ordering}
use technical_test_mitus_ai.Prelude.{
  ℕ, ◌+◌, ◌-◌, String, Bool, true, false, Option, none, some, List, [], ◌∷◌, ◌++◌, ltb, leb, ◌==◌,
  string_eq, if◌then◌else◌, map, contains, Result, ok, err, value_error, duplicate_job_error,
}
use technical_test_mitus_ai.Contract.Text.{validate_run_id}
use technical_test_mitus_ai.Contract.Run.{AnalysisRunStatus, is_terminal}
use technical_test_mitus_ai.Repository.{load}
use technical_test_mitus_ai.Repository.Tables.{Database}
use technical_test_mitus_ai.Queue.Jobs.{ExecutionJob, is_bad_worker, stamp, unstamp}
use technical_test_mitus_ai.Queue.Files.{
  Place, queued, claimed, completed, failed, cancelled, readable, File, exists, lookup, names_in,
  os_replace, write_replace, move_raw, read,
}

-- The state directories, and the reservations in `run-index`.
pub record Queue : Type 0 where
  pub files : List File
  pub run_index : List String

abbrev pub with_files : List File → Queue → Queue
with_files files q = record q { files = files }

unfoldable pub enqueue : ExecutionJob → Queue → Result (Unit {0}) × Queue
unfolding contains exists
enqueue job q =
    if contains q.run_index job.run_id
    then (err duplicate_job_error, q)
    else if exists queued job.job_id q.files
    then (err duplicate_job_error, q)
    else (
      ok tt,
      record {
        files = record { place = queued; name = job.job_id; content = readable job } ∷ q.files;
        run_index = job.run_id ∷ q.run_index;
      },
    )

abbrev pub precedes : String → String → Bool
precedes a b = elim (compare a b) [ Ordering.gt ↦ false | _ ↦ true ]

abbrev pub insert_name : String → List String → List String
insert_name n [] = n ∷ []
insert_name n (m ∷ names) =
    let rest = insert_name n names in if precedes n m then n ∷ m ∷ names else m ∷ rest

-- `sorted(...)` of a listing
abbrev pub sort_names : List String → List String
sort_names [] = []
sort_names (n ∷ names) = insert_name n (sort_names names)

-- The rename and the rewrite of a claim.
unfoldable pub take : String → ExecutionJob → List File → List File
unfolding os_replace write_replace
take name job files =
    write_replace claimed job.job_id job (os_replace queued name claimed job.job_id files)

-- `if source.exists(): self._move_raw(source, failed / source.name)`
unfoldable pub set_aside : String → List File → List File
unfolding exists move_raw
set_aside name files =
    if exists queued name files then move_raw queued name failed name files else files

unfoldable pub claim_from : String → ℕ → List String → List File → Option ExecutionJob × List File
unfolding read take set_aside
claim_from worker_id now [] files = (none, files)
claim_from worker_id now (name ∷ names) files = elim (read (lookup queued name files)) [
  | ok job ↦ (some (stamp worker_id now job), take name (stamp worker_id now job) files)
  | err raised ↦ claim_from worker_id now names (set_aside name files)
]

abbrev pub claimed_result :
    Queue → Option ExecutionJob × List File → Result (Option ExecutionJob) × Queue
claimed_result q (job, files) = (ok job, with_files files q)

unfoldable pub claim : String → ℕ → Queue → Result (Option ExecutionJob) × Queue
unfolding is_bad_worker claim_from
claim worker_id now q =
    if is_bad_worker worker_id
    then (err value_error, q)
    else claimed_result q (claim_from worker_id now (sort_names (names_in queued q.files)) q.files)

-- `_terminal_move`
unfoldable pub terminal_move : Place → ExecutionJob → List File → List File
unfolding exists os_replace
terminal_move state job files =
    if exists state job.job_id files
    then files
    else if exists claimed job.job_id files
    then os_replace claimed job.job_id state job.job_id files
    else files

abbrev pub complete : ExecutionJob → Queue → Queue
complete job q = with_files (terminal_move completed job q.files) q

abbrev pub fail : ExecutionJob → Queue → Queue
fail job q = with_files (terminal_move failed job q.files) q

abbrev pub listing : Place → List File → List (Place × String)
listing p files = map (λ n. (p, n)) (names_in p files)

unfoldable pub cancel_from : String → List (Place × String) → List File → Bool × List File
unfolding read move_raw
cancel_from run_id [] files = (false, files)
cancel_from run_id ((p, name) ∷ sources) files =
    let rest = cancel_from run_id sources files in
    elim (read (lookup p name files)) [
      | ok job ↦
          if job.run_id == run_id then (true, move_raw p name cancelled job.job_id files) else rest
      | err raised ↦ rest
    ]

abbrev pub cancelled_result : Queue → Bool × List File → Result Bool × Queue
cancelled_result q (found, files) = (ok found, with_files files q)

unfoldable pub cancel : String → Queue → Result Bool × Queue
unfolding validate_run_id cancel_from
cancel run_id q = elim (validate_run_id run_id) [
  | ok done ↦
      cancelled_result q
        (cancel_from run_id (listing queued q.files ++ listing claimed q.files) q.files)
  | err raised ↦ (err raised, q)
]

-- The directory of a finished run's job
abbrev pub settled_place : AnalysisRunStatus → Place
settled_place AnalysisRunStatus.succeeded = completed
settled_place AnalysisRunStatus.partial = completed
settled_place AnalysisRunStatus.cancelled = cancelled
settled_place _ = failed

-- `job.claimed_at and job.claimed_at < cutoff`
abbrev pub is_abandoned : ℕ → Option ℕ → Bool
is_abandoned cutoff none = false
is_abandoned cutoff (some claimed_at) = ltb claimed_at cutoff

-- The body of the loop once record and run are loaded, with what it adds to `recovered`
unfoldable pub recover_job :
    ℕ → String → ExecutionJob → AnalysisRunStatus → List File → ℕ × List File
unfolding move_raw write_replace
recover_job cutoff name job status files =
    if is_terminal status
    then (0, move_raw claimed name (settled_place status) job.job_id files)
    else if is_abandoned cutoff job.claimed_at
    then (
      1,
      write_replace queued job.job_id (unstamp job) (move_raw claimed name queued job.job_id files),
    )
    else (0, files)

unfoldable pub recover_one : ℕ → Database → String → List File → ℕ × List File
unfolding read load move_raw recover_job
recover_one cutoff store name files = elim (read (lookup claimed name files)) [
  | ok job ↦ elim (load job.run_id store) [
    | ok run ↦ recover_job cutoff name job run.status files
    | err raised ↦ (0, move_raw claimed name failed name files)
  ]
  | err raised ↦ (0, move_raw claimed name failed name files)
]

unfoldable pub recover_from : ℕ → Database → List String → ℕ × List File → ℕ × List File
unfolding recover_one
recover_from cutoff store [] state = state
recover_from cutoff store (name ∷ names) (recovered, files) =
    let once = recover_one cutoff store name files in
    recover_from cutoff store names (recovered + once.0, once.1)

-- `timedelta(seconds=max(timeout_seconds, 1))`, in microseconds
abbrev pub timeout : ℕ → ℕ
timeout microseconds = if leb microseconds 1000000 then 1000000 else microseconds

unfoldable pub recover_abandoned : (microseconds now : ℕ) → Database → Queue → ℕ × Queue
unfolding recover_from
recover_abandoned microseconds now store q =
    let state =
      recover_from (now - timeout microseconds) store (names_in claimed q.files) (0, q.files) in
    (state.0, with_files state.1 q)
