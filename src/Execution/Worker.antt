-- ===== src/Execution/Worker.antt =====
-- The loop of v2/src/footballai_v2/worker.py over the filesystem queue.
use technical_test_mitus_ai.Prelude.{
  ℕ, zero, suc, String, Bool, true, Option, none, some, Result, ok, err, if◌then◌else◌,
}
use technical_test_mitus_ai.Contract.Run.{AnalysisRunStatus}
use technical_test_mitus_ai.Queue.Jobs.{ExecutionJob}
use technical_test_mitus_ai.Queue.Local.{Queue, claim, complete, fail, cancel}
use technical_test_mitus_ai.Execution.Action.{
  Environment, World, Outcome, returned, raised, Exception, other_exception, utc_now,
}
use technical_test_mitus_ai.Execution.Pipeline.{AnalysisExecutor}
use technical_test_mitus_ai.Execution.Executor.{execute}

-- What one round did. An exception ends the worker.
pub data Round : Type 0 where
  idle : Round
  worked : ExecutionJob → AnalysisRunStatus → Round
  crashed : Exception → Round

pub record Site : Type 0 where
  pub queue : Queue
  pub world : World

-- The call on the queue for a status
unfoldable pub dispatch : AnalysisRunStatus → ExecutionJob → Queue → Result Bool × Queue
unfolding cancel
dispatch AnalysisRunStatus.succeeded job q = (ok true, complete job q)
dispatch AnalysisRunStatus.partial job q = (ok true, complete job q)
dispatch AnalysisRunStatus.cancelled job q = cancel job.run_id q
dispatch _ job q = (ok true, fail job q)

abbrev pub dispatched :
    ExecutionJob → AnalysisRunStatus → World → Result Bool × Queue → Round × Site
dispatched job status w (ok found, q) = (worked job status, record { queue = q; world = w })
dispatched job status w (err e, q) = (crashed (other_exception e), record { queue = q; world = w })

unfoldable pub finish_job : ExecutionJob → Queue → Outcome AnalysisRunStatus × World → Round × Site
unfolding dispatch
finish_job job q (returned status, w) = dispatched job status w (dispatch status job q)
finish_job job q (raised e, w) = (crashed e, record { queue = q; world = w })

module _ (env : Environment) (executor : AnalysisExecutor) (worker_id : String) where
  unfoldable pub work_on : Result (Option ExecutionJob) → Queue → World → Round × Site
  unfolding finish_job execute
  work_on (err e) q w = (crashed (other_exception e), record { queue = q; world = w })
  work_on (ok none) q w = (idle, record { queue = q; world = w })
  work_on (ok (some job)) q w = finish_job job q (execute env executor job worker_id w)

  -- One round: `claim` reads the clock for the time of the claim.
  unfoldable pub work_round : Site → Round × Site
  unfolding claim work_on utc_now
  work_round s =
      let r = claim worker_id (env.clock s.world.readings) s.queue in
      work_on r.0 r.1 (utc_now env s.world).1

  -- `while not stopped`, with the number of rounds before the signal arrives
  unfoldable pub work : (run_once : Bool) → (rounds : ℕ) → Site → Option Exception × Site
  unfolding work_round
  work run_once zero s = (none, s)
  work run_once (suc rounds) s =
      let (r, s') = work_round s in
      let rest = work run_once rounds s' in
      elim r [
        | crashed e ↦ (some e, s')
        | idle ↦ if run_once then (none, s') else rest
        | worked job status ↦ if run_once then (none, s') else rest
      ]
