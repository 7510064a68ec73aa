-- ===== src/Queue/Finality.antt =====
-- The methods of v2/src/footballai_v2/execution/queue/local_filesystem.py leave finished jobs finished.
use technical_test_mitus_ai.Prelude.{
  ℕ, ◌-◌, ◌+◌, String, ◌≡◌, ap, ◌∙◌, inl, inr, true, false, List, [], ◌∷◌, ◌++◌, ◌==◌, string_eq,
  map, contains, Bool-cases, Result-cases,
}
use technical_test_mitus_ai.Contract.Run.{AnalysisRunStatus, is_terminal}
use technical_test_mitus_ai.Contract.Text.{validate_run_id}
use technical_test_mitus_ai.Repository.{load}
use technical_test_mitus_ai.Repository.Tables.{Database}
use technical_test_mitus_ai.Queue.Jobs.{ExecutionJob, is_bad_worker, stamp, unstamp}
use technical_test_mitus_ai.Queue.Files.{
  Place, place_eq, queued, claimed, completed, failed, cancelled, File, exists, lookup, names_in,
  os_replace, move_raw, read,
}
use technical_test_mitus_ai.Queue.Local.{
  Queue, enqueue, take, set_aside, sort_names, claim_from, terminal_move, cancel_from, listing,
  settled_place, recover_job, recover_one, recover_from, recover_abandoned, is_abandoned, timeout,
}
use technical_test_mitus_ai.Queue.Records.{move_raw-free}
use technical_test_mitus_ai.Queue.Conservation.{
  claim_from-found, claim_from-passed, cancel_from-hit, cancel_from-other, cancel_from-unread,
}
use technical_test_mitus_ai.Queue.Recovery.{recover_one-run, recover_one-lost, recover_one-unread}
use technical_test_mitus_ai.Queue.Service.{
  Request, call_enqueue, call_claim, call_complete, call_fail, call_cancel, call_recover, serve,
  serve_all, claim-fine, claim-bad, cancel-valid, cancel-invalid,
}
use technical_test_mitus_ai.Queue.Presence.{
  Final, exists-os_replace, exists-write_replace, exists-move_raw,
}

-- What one final directory holds stays in it.
module _ (q : Place) (n : String) (final : Final q) where
  abbrev Kept : List File → Type 0
  Kept files = exists q n files ≡ true

  -- The sources are of other directories.
  abbrev Elsewhere : List (Place × String) → Type 0
  Elsewhere [] = Unit
  Elsewhere ((p, m) ∷ sources) = (p == q ≡ false) × Elsewhere sources

  take-Kept :
      (name : String) (job : ExecutionJob) (files : List File)
      → Kept files
      → Kept (take name job files)
  unfolding take
  take-Kept name job files h =
      exists-write_replace claimed q n job.job_id job
        (os_replace queued name claimed job.job_id files)
        (exists-os_replace queued claimed q n name job.job_id files final.0 final.1 h)

  set_aside-Kept : (name : String) (files : List File) → Kept files → Kept (set_aside name files)
  unfolding set_aside
  set_aside-Kept name files h = elim (Bool-cases (exists queued name files)) [
    | inl here ↦ rw here (exists-move_raw queued failed q n name name files final.0 h)
    | inr gone ↦ rw gone h
  ]

  claim_from-Kept :
      (worker_id : String) (now : ℕ) (sources : List String) (files : List File)
      → Kept files
      → Kept (claim_from worker_id now sources files).1
  unfolding claim_from
  claim_from-Kept worker_id now [] files h = h
  claim_from-Kept worker_id now (name ∷ sources) files h =
      elim (Result-cases (read (lookup queued name files))) [
        | inl (job, found) ↦
            ap (λ r. exists q n r.1) (claim_from-found worker_id now name sources files job found)
            ∙ take-Kept name (stamp worker_id now job) files h
        | inr (raised, found) ↦
            ap (λ r. exists q n r.1)
              (claim_from-passed worker_id now name sources files raised found)
            ∙ claim_from-Kept worker_id now sources (set_aside name files)
                (set_aside-Kept name files h)
      ]

  os_replace_free-Kept :
      (state : Place) (m : String) (files : List File)
      → exists state m files ≡ false
      → Kept files
      → Kept (os_replace claimed m state m files)
  os_replace_free-Kept state m files free h =
      rw (move_raw-free claimed state m m files free) at
        (exists-move_raw claimed state q n m m files final.1 h)

  terminal_move-Kept :
      (state : Place) (job : ExecutionJob) (files : List File)
      → Kept files
      → Kept (terminal_move state job files)
  unfolding terminal_move
  terminal_move-Kept state job files h = elim (Bool-cases (exists state job.job_id files)) [
    | inl there ↦ rw there h
    | inr free ↦ rw free (elim (Bool-cases (exists claimed job.job_id files)) [
      | inl here ↦ rw here (os_replace_free-Kept state job.job_id files free h)
      | inr gone ↦ rw gone h
    ])
  ]

  cancel_from-Kept :
      (run_id : String) (sources : List (Place × String)) (files : List File)
      → Elsewhere sources
      → Kept files
      → Kept (cancel_from run_id sources files).1
  unfolding cancel_from
  cancel_from-Kept run_id [] files apart h = h
  cancel_from-Kept run_id ((p, name) ∷ sources) files apart h =
      let later = cancel_from-Kept run_id sources files apart.1 h in
      elim (Result-cases (read (lookup p name files))) [
        | inl (job, found) ↦ elim (Bool-cases (job.run_id == run_id)) [
          | inl mine ↦
              ap (λ r. exists q n r.1) (cancel_from-hit run_id p name sources files job found mine)
              ∙ exists-move_raw p cancelled q n name job.job_id files apart.0 h
          | inr other ↦
              ap (λ r. exists q n r.1)
                (cancel_from-other run_id p name sources files job found other)
              ∙ later
        ]
        | inr (raised, found) ↦
            ap (λ r. exists q n r.1) (cancel_from-unread run_id p name sources files raised found)
            ∙ later
      ]

  Elsewhere-++ :
      (xs ys : List (Place × String)) → Elsewhere xs → Elsewhere ys → Elsewhere (xs ++ ys)
  Elsewhere-++ [] ys a b = b
  Elsewhere-++ ((p, m) ∷ xs) ys a b = (a.0, Elsewhere-++ xs ys a.1 b)

  listing-Elsewhere :
      (p : Place) (ms : List String) → p == q ≡ false → Elsewhere (map (λ m. (p, m)) ms)
  listing-Elsewhere p [] other = tt
  listing-Elsewhere p (m ∷ ms) other = (other, listing-Elsewhere p ms other)

  recover_job-Kept :
      (cutoff : ℕ) (name : String) (job : ExecutionJob) (status : AnalysisRunStatus)
      (files : List File)
      → Kept files
      → Kept (recover_job cutoff name job status files).1
  unfolding recover_job
  recover_job-Kept cutoff name job status files h = elim (Bool-cases (is_terminal status)) [
    | inl done ↦
        rw done (exists-move_raw claimed (settled_place status) q n name job.job_id files final.1 h)
    | inr active ↦ rw active (elim (Bool-cases (is_abandoned cutoff job.claimed_at)) [
      | inl old ↦ rw old (
          exists-write_replace queued q n job.job_id (unstamp job)
            (move_raw claimed name queued job.job_id files)
            (exists-move_raw claimed queued q n name job.job_id files final.1 h))
      | inr fresh ↦ rw fresh h
    ])
  ]

  recover_one-Kept :
      (cutoff : ℕ) (store : Database) (name : String) (files : List File)
      → Kept files
      → Kept (recover_one cutoff store name files).1
  recover_one-Kept cutoff store name files h =
      let aside = exists-move_raw claimed failed q n name name files final.1 h in
      elim (Result-cases (read (lookup claimed name files))) [
        | inl (job, found) ↦ elim (Result-cases (load job.run_id store)) [
          | inl (run, loaded) ↦
              ap (λ r. exists q n r.1)
                (recover_one-run cutoff store name files job run found loaded)
              ∙ recover_job-Kept cutoff name job run.status files h
          | inr (raised, lost) ↦
              ap (λ r. exists q n r.1)
                (recover_one-lost cutoff store name files job raised found lost)
              ∙ aside
        ]
        | inr (raised, found) ↦
            ap (λ r. exists q n r.1) (recover_one-unread cutoff store name files raised found)
            ∙ aside
      ]

  recover_from-Kept :
      (cutoff : ℕ) (store : Database) (sources : List String) (recovered : ℕ) (files : List File)
      → Kept files
      → Kept (recover_from cutoff store sources (recovered, files)).1
  unfolding recover_from
  recover_from-Kept cutoff store [] recovered files h = h
  recover_from-Kept cutoff store (name ∷ sources) recovered files h =
      let once = recover_one cutoff store name files in
      recover_from-Kept cutoff store sources (recovered + once.0) once.1
        (recover_one-Kept cutoff store name files h)

  enqueue-Kept :
      (job : ExecutionJob) (queue : Queue) → Kept queue.files → Kept (enqueue job queue).1.files
  unfolding enqueue exists
  enqueue-Kept job queue h = elim (Bool-cases (contains queue.run_index job.run_id)) [
    | inl reserved ↦ rw reserved h
    | inr free ↦ rw free (elim (Bool-cases (exists queued job.job_id queue.files)) [
      | inl taken ↦ rw taken h
      | inr unused ↦ rw unused (rw final.0 h)
    ])
  ]

  serve-Kept : (r : Request) (queue : Queue) → Kept queue.files → Kept (serve r queue).files
  unfolding serve recover_abandoned
  serve-Kept (call_enqueue job) queue h = enqueue-Kept job queue h
  serve-Kept (call_claim worker_id now) queue h = elim (Bool-cases (is_bad_worker worker_id)) [
    | inl bad ↦ ap (λ r. exists q n r.1.files) (claim-bad worker_id now queue bad) ∙ h
    | inr fine ↦
        ap (λ r. exists q n r.1.files) (claim-fine worker_id now queue fine)
        ∙ claim_from-Kept worker_id now (sort_names (names_in queued queue.files)) queue.files h
  ]
  serve-Kept (call_complete job) queue h = terminal_move-Kept completed job queue.files h
  serve-Kept (call_fail job) queue h = terminal_move-Kept failed job queue.files h
  serve-Kept (call_cancel run_id) queue h = elim (Result-cases (validate_run_id run_id)) [
    | inl (done, valid) ↦
        ap (λ r. exists q n r.files) (cancel-valid run_id done queue valid)
        ∙ cancel_from-Kept run_id (listing queued queue.files ++ listing claimed queue.files)
            queue.files
            (Elsewhere-++ (listing queued queue.files) (listing claimed queue.files)
              (listing-Elsewhere queued (names_in queued queue.files) final.0)
              (listing-Elsewhere claimed (names_in claimed queue.files) final.1))
            h
    | inr (raised, invalid) ↦
        ap (λ r. exists q n r.1.files) (cancel-invalid run_id raised queue invalid) ∙ h
  ]
  serve-Kept (call_recover microseconds now store) queue h =
      recover_from-Kept (now - timeout microseconds) store (names_in claimed queue.files) 0
        queue.files h

-- Whatever calls a queue serves, in whatever state: a file in a directory other than `queued` and
-- `claimed`, so in `completed`, `failed` or `cancelled`, stays there.
pub serve_all-Final :
    (p : Place) (n : String)
    → Final p
    → (requests : List Request) (q : Queue) → exists p n q.files ≡ true
    → exists p n (serve_all requests q).files ≡ true
unfolding serve_all
serve_all-Final p n final [] q h = h
serve_all-Final p n final (r ∷ requests) q h =
    serve_all-Final p n final requests (serve r q) (serve-Kept p n final r q h)
