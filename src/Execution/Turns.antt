-- ===== src/Execution/Turns.antt =====
-- What a round of the loop of v2/src/footballai_v2/worker.py leaves in the control plane and in the queue.
use technical_test_mitus_ai.Prelude.{
  String, ◌≡◌, refl, sym, ap, subst, ◌∙◌, Bool, true, Option, none, some, Result, ok, err, nat_eq,
}
use technical_test_mitus_ai.Contract.Run.{AnalysisRunStatus}
use technical_test_mitus_ai.Repository.Tables.{Attempt}
use technical_test_mitus_ai.Repository.Saves.{row_of}
use technical_test_mitus_ai.Repository.History.{IsProjected}
use technical_test_mitus_ai.Queue.Jobs.{ExecutionJob, execution_job}
use technical_test_mitus_ai.Queue.Files.{
  place_eq, place_number, claimed, completed, failed, exists, lookup, readable,
}
use technical_test_mitus_ai.Queue.Local.{Queue, claim, settled_place}
use technical_test_mitus_ai.Queue.Service.{Sound}
use technical_test_mitus_ai.Queue.Claims.{claim-Claimed}
use technical_test_mitus_ai.Queue.Settling.{terminal_move-exists, cancel-exists}
use technical_test_mitus_ai.Queue.Handover.{claim-valid, claim-Sound}
use technical_test_mitus_ai.Execution.Action.{
  Environment, World, Outcome, returned, raised, utc_now,
}
use technical_test_mitus_ai.Execution.Pipeline.{AnalysisExecutor}
use technical_test_mitus_ai.Execution.Executor.{execute}
use technical_test_mitus_ai.Execution.Triple.{Holds}
use technical_test_mitus_ai.Execution.Keeps.{On}
use technical_test_mitus_ai.Execution.Ending.{Descends, Settled}
use technical_test_mitus_ai.Execution.Completion.{execute-Settled}
use technical_test_mitus_ai.Execution.Worker.{
  worked, Site, dispatch, dispatched, finish_job, work_on, work_round,
}

-- The job stands in `claimed`, as a valid record of a sound queue.
abbrev Held : ExecutionJob → Queue → Type 0
Held job q =
    Sound q
    × (lookup claimed job.job_id q.files ≡ some (readable job))
    × (execution_job job ≡ ok job)

-- Where the dispatch leaves the job
abbrev Placed : AnalysisRunStatus → ExecutionJob → Result Bool × Queue → Type 0
Placed status job (r, q) = (r ≡ ok true) × (exists (settled_place status) job.job_id q.files ≡ true)

dispatch-Placed :
    (status : AnalysisRunStatus) (job : ExecutionJob) (q : Queue)
    → Held job q
    → Placed status job (dispatch status job q)
unfolding dispatch place_number
dispatch-Placed AnalysisRunStatus.succeeded job q (sound, there, valid) =
    (refl, terminal_move-exists completed job q.run_index q.files sound.0 refl there)
dispatch-Placed AnalysisRunStatus.partial job q (sound, there, valid) =
    (refl, terminal_move-exists completed job q.run_index q.files sound.0 refl there)
dispatch-Placed AnalysisRunStatus.cancelled job q (sound, there, valid) =
    cancel-exists q job sound there valid
dispatch-Placed AnalysisRunStatus.failed job q (sound, there, valid) =
    (refl, terminal_move-exists failed job q.run_index q.files sound.0 refl there)
dispatch-Placed AnalysisRunStatus.queued job q (sound, there, valid) =
    (refl, terminal_move-exists failed job q.run_index q.files sound.0 refl there)
dispatch-Placed AnalysisRunStatus.running job q (sound, there, valid) =
    (refl, terminal_move-exists failed job q.run_index q.files sound.0 refl there)

-- Both planes agree on the end of the job.
abbrev pub Agreed : ExecutionJob → AnalysisRunStatus → Attempt → Site → Type 0
Agreed job status a s =
    Settled job.run_id a status s.world
    × (exists (settled_place status) job.job_id s.queue.files ≡ true)

dispatched-Agreed :
    (job job' : ExecutionJob) (status status' : AnalysisRunStatus) (a : Attempt) (w : World)
    (d : Result Bool × Queue)
    → Settled job.run_id a status w
    → Placed status job d
    → (dispatched job status w d).0 ≡ worked job' status'
    → Agreed job' status' a (dispatched job status w d).1
dispatched-Agreed job job' status status' a w (ok found, q) settled (fine, placed) h =
    let same : job ≡ job' = cc h in
    let ended : status ≡ status' = cc h in
    subst (λ j. Agreed j status' a (record { queue = q; world = w })) same
      (subst (λ st. Agreed job st a (record { queue = q; world = w })) ended (settled, placed))
dispatched-Agreed job job' status status' a w (err e, q) settled (raised', placed) h = cc

dispatched-worked :
    (job job' : ExecutionJob) (status status' : AnalysisRunStatus) (w : World)
    (d : Result Bool × Queue)
    → (dispatched job status w d).0 ≡ worked job' status'
    → job ≡ job'
dispatched-worked job job' status status' w (ok found, q) h = cc
dispatched-worked job job' status status' w (err e, q) h = cc

finish_job-Agreed :
    (job job' : ExecutionJob) (status' : AnalysisRunStatus) (a : Attempt) (q : Queue)
    (o : Outcome AnalysisRunStatus) (w : World)
    → Held job q
    → Holds (Settled job.run_id a) (On (Descends job.run_id a)) o w
    → (finish_job job q (o, w)).0 ≡ worked job' status'
    → Agreed job' status' a (finish_job job q (o, w)).1
unfolding finish_job
finish_job-Agreed job job' status' a q (returned status) w held settled h =
    dispatched-Agreed job job' status status' a w (dispatch status job q) settled
      (dispatch-Placed status job q held) h
finish_job-Agreed job job' status' a q (raised e) w held kept h = cc

finish_job-worked :
    (job job' : ExecutionJob) (status' : AnalysisRunStatus) (q : Queue)
    (out : Outcome AnalysisRunStatus × World)
    → (finish_job job q out).0 ≡ worked job' status'
    → job ≡ job'
unfolding finish_job
finish_job-worked job job' status' q (raised e, w) h = cc
finish_job-worked job job' status' q (returned status, w) h =
    dispatched-worked job job' status status' w (dispatch status job q) h

module _ (env : Environment) (executor : AnalysisExecutor) (worker_id : String) where
  work_on-Agreed :
      (c : Result (Option ExecutionJob)) (q : Queue) (w : World) (job : ExecutionJob)
      (status : AnalysisRunStatus) (a : Attempt)
      → ((j : ExecutionJob) → c ≡ ok (some j) → Held j q)
      → IsProjected a
      → a.manifest.run_id ≡ job.run_id
      → row_of job.run_id w.db ≡ some a
      → (work_on env executor worker_id c q w).0 ≡ worked job status
      → Agreed job status a (work_on env executor worker_id c q w).1
  unfolding work_on
  work_on-Agreed (err e) q w job status a held projected named stored h = cc
  work_on-Agreed (ok none) q w job status a held projected named stored h = cc
  work_on-Agreed (ok (some j)) q w job status a held projected named stored h =
      let out = execute env executor j worker_id w in
      let same : j ≡ job = finish_job-worked j job status q out h in
      let run = ap (λ (x : ExecutionJob). x.run_id) same in
      finish_job-Agreed j job status a q out.0 out.1 (held j refl)
        (execute-Settled env executor j worker_id w a projected (named ∙ sym run)
          (ap (λ k. row_of k w.db) run ∙ stored))
        h

-- In a sound queue that no other process changes while the run is executed, a round that worked on
-- a job leaves both planes agreed: the attempt of the job is stored in the terminal status that
-- the round reports, as a descendant of the attempt before, and the job stands in the directory of
-- that status.
pub work_round-Agreed :
    (env : Environment) (executor : AnalysisExecutor) (worker_id : String) (s : Site)
    (job : ExecutionJob) (status : AnalysisRunStatus) (a : Attempt)
    → Sound s.queue
    → IsProjected a
    → a.manifest.run_id ≡ job.run_id
    → row_of job.run_id s.world.db ≡ some a
    → (work_round env executor worker_id s).0 ≡ worked job status
    → Agreed job status a (work_round env executor worker_id s).1
unfolding work_round utc_now
work_round-Agreed env executor worker_id s job status a sound projected named stored h =
    let now = env.clock s.world.readings in
    let c = claim worker_id now s.queue in
    work_on-Agreed env executor worker_id c.0 c.1 (utc_now env s.world).1 job status a
      (λ j found. (
        claim-Sound worker_id now s.queue sound,
        (claim-Claimed worker_id now j s.queue sound.0 found).3,
        claim-valid worker_id now s.queue j found,
      ))
      projected named stored h
