-- ===== src/Tests/Worker.antt =====
-- The worker's loop at the sample job.
use technical_test_mitus_ai.Prelude.{◌≡◌, refl, true, false, none}
use technical_test_mitus_ai.Contract.Run.{AnalysisRunStatus}
use technical_test_mitus_ai.Queue.Jobs.{ExecutionJob, stamp}
use technical_test_mitus_ai.Queue.Files.{completed, exists}
use technical_test_mitus_ai.Execution.Worker.{
  worked, Site, dispatch, finish_job, work_on, work_round, work,
}
use technical_test_mitus_ai.Execution.Turns.{Agreed, work_round-Agreed}
use technical_test_mitus_ai.Tests.Queue.{queue_program, job, one_queued, one_queued-Sound}
use technical_test_mitus_ai.Tests.Repository.{created}
use technical_test_mitus_ai.Tests.Execution.{
  execution_program, alone, executor, before, new_row, created_there,
}

unfoldable worker_program : Unit {0}
unfolding execution_program queue_program dispatch finish_job work_on work_round work
worker_program = tt

abbrev site : Site
site = record { queue = one_queued; world = before created }

abbrev claimed_job : ExecutionJob
claimed_job = stamp "worker" 200 job

works : (work_round alone executor "worker" site).0 ≡ worked claimed_job AnalysisRunStatus.succeeded
unfolding worker_program
works = refl

-- After the job, the loop goes on and finds nothing.
loops :
    ((work alone executor "worker" false 3 site).0 ≡ none)
    × (exists completed job.job_id (work alone executor "worker" true 3 site).1.queue.files ≡ true)
unfolding worker_program
loops = (refl, refl)

work_round-Agreed_example :
    Agreed claimed_job AnalysisRunStatus.succeeded new_row
      (work_round alone executor "worker" site).1
work_round-Agreed_example =
    work_round-Agreed alone executor "worker" site claimed_job AnalysisRunStatus.succeeded new_row
      one_queued-Sound refl refl created_there works
