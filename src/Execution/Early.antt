-- ===== src/Execution/Early.antt =====
-- When `execute` of execution/executor.py does not start the work: on a finished attempt, and on one
-- whose cancellation is requested before it starts.
use technical_test_mitus_ai.Prelude.{
  ℕ, zero, suc, String, ◌≡◌, refl, sym, ap, ◌∙◌, true, false, some, Result, ok, err, ok-injective,
}
use technical_test_mitus_ai.Contract.Run.{AnalysisRun, AnalysisRunStatus, queued, is_terminal}
use technical_test_mitus_ai.Contract.Transitions.{is_queued}
use technical_test_mitus_ai.Repository as Repository
use technical_test_mitus_ai.Repository.Tables.{Attempt, Database}
use technical_test_mitus_ai.Repository.Saves.{row_of}
use technical_test_mitus_ai.Repository.History.{IsProjected}
use technical_test_mitus_ai.Repository.Immutability.{Lineage-refl}
use technical_test_mitus_ai.Queue.Jobs.{ExecutionJob}
use technical_test_mitus_ai.Execution.Action.{
  Environment, World, returned, pure, ◌>>=◌, interleave, saved_in, utc_now, load, save,
  cancellation_requested,
}
use technical_test_mitus_ai.Execution.Pipeline.{AnalysisExecutor, later}
use technical_test_mitus_ai.Execution.Executor.{cancel_or_start, execute}
use technical_test_mitus_ai.Execution.Triple.{
  Triple, Holds, Keeps, Triple-then, Triple-lift, Triple-pure,
}
use technical_test_mitus_ai.Execution.Keeps.{interleave-On}
use technical_test_mitus_ai.Execution.Ending.{Descends, Descends-Closed, load_row}

-- A delivery of a finished attempt returns its status. Its one effect is to read the attempt: the
-- world is as other processes have left it at that reading.
pub execute-terminal :
    (env : Environment) (executor : AnalysisExecutor) (job : ExecutionJob) (worker_id : String)
    (w : World) (a : Attempt)
    → IsProjected a
    → row_of job.run_id w.db ≡ some a
    → is_terminal a.manifest.status ≡ true
    → execute env executor job worker_id w ≡ (returned a.manifest.status, interleave env w)
unfolding execute load pure ◌>>=◌
execute-terminal env executor job worker_id w a projected stored ended =
    let (b, stored', l) =
      interleave-On (Descends job.run_id a) (Descends-Closed job.run_id a) env w
        (a, stored, Lineage-refl a projected) in
    let same = stored' ∙ ap (λ c. some c) (l.frozen ended) in
    rw (load_row job.run_id (interleave env w).db a same, ended) refl

-- The objects are those that the others have left at some later call.
abbrev pub Untouched : Environment → World → World → Type 0
Untouched env w w' =
    (n : ℕ) × (w'.objects ≡ (later env n w).objects) × (w'.port_calls ≡ (later env n w).port_calls)

later_end :
    (env : Environment) (n : ℕ) (w : World) → later env (suc n) w ≡ interleave env (later env n w)
unfolding later
later_end env zero w = refl
later_end env (suc n) w = later_end env n (interleave env w)

module _ (env : Environment) (w0 : World) where
  abbrev Same : World → Type 0
  Same = Untouched env w0

  interleave-Same : (w : World) → Same w → Same (interleave env w)
  unfolding interleave
  interleave-Same w (n, objects, turns) =
      (suc n, rw (later_end env n w0, objects, turns) refl, rw (later_end env n w0, turns) refl)

  saved-Same :
      (w : World) (r : Result Database)
      → Same w
      → Holds (λ done. Same) Same (saved_in w r).0 (saved_in w r).1
  saved-Same w (ok db) h = h
  saved-Same w (err e) h = h

  save-Same : (run : AnalysisRun) → Keeps Same (save env run)
  unfolding save utc_now
  save-Same run = record { at = λ w h. saved-Same _ _ (interleave-Same w h) }

  now-Same : Keeps Same (utc_now env)
  unfolding utc_now
  now-Same = record { at = λ w h. h }

  -- The outcome, and what the world shows of it
  abbrev pub CancelledOnly : AnalysisRunStatus → World → Type 0
  CancelledOnly s w = (s ≡ AnalysisRunStatus.cancelled) × Same w

  module _ (executor : AnalysisExecutor) (job : ExecutionJob) (worker_id : String)
      (run : AnalysisRun) where
    cancelled_at_once :
        Triple Same (cancel_or_start env executor job worker_id run true) CancelledOnly Same
    cancelled_at_once = Triple-then CancelledOnly _ _ now-Same λ now.
        Triple-lift CancelledOnly _ _ λ cancelled made.
          Triple-then CancelledOnly _ _ (save-Same cancelled)
            λ done. Triple-pure CancelledOnly AnalysisRunStatus.cancelled (λ w h. (refl, h))

is_queued-active : (s : AnalysisRunStatus) → is_queued s ≡ true → is_terminal s ≡ false
is_queued-active queued h = refl
is_queued-active _ h = cc

flag_read :
    (k : String) (db : Database) (b : Attempt)
    → row_of k db ≡ some b
    → b.cancel_requested ≡ true
    → Repository.cancellation_requested k db ≡ true
unfolding Repository.cancellation_requested
flag_read k db b stored flagged = rw (stored, Repository.cancellation_requested) flagged

-- A delivery of an attempt whose cancellation is requested, and which is queued when the worker
-- reads it, starts no work: it returns the cancelled status or raises, and the objects are as the
-- other processes have left them.
pub execute-cancelled_early :
    (env : Environment) (executor : AnalysisExecutor) (job : ExecutionJob) (worker_id : String)
    (w : World) (a : Attempt) (run : AnalysisRun)
    → IsProjected a
    → a.manifest.run_id ≡ job.run_id
    → row_of job.run_id w.db ≡ some a
    → a.cancel_requested ≡ true
    → Repository.load job.run_id (interleave env w).db ≡ ok run
    → is_queued run.status ≡ true
    → Holds
        (CancelledOnly env w)
        (Untouched env w)
        (execute env executor job worker_id w).0
        (execute env executor job worker_id w).1
unfolding execute load cancellation_requested ◌>>=◌
execute-cancelled_early env executor job worker_id w a run projected named stored flagged read
      waiting =
    let k = job.run_id in
    let D = Descends k a in
    let step = interleave-On D (Descends-Closed k a) env in
    let w1 = interleave env w in
    let (b, stored1, l1) = step w (a, stored, Lineage-refl a projected) in
    let (c, stored2, l2) = step w1 (b, stored1, l1) in
    let same = ok-injective (sym read ∙ load_row k w1.db b stored1) in
    let mine = ap (λ (r : AnalysisRun). r.run_id) same ∙ (sym l1.identity.run_id ∙ named) in
    let seen =
      ap (λ j. Repository.cancellation_requested j (interleave env w1).db) mine
      ∙ flag_read k (interleave env w1).db c stored2 (l2.cancelled flagged) in
    rw (read, is_queued-active run.status waiting, waiting, seen)
      ((cancelled_at_once env w executor job worker_id run).at (interleave env w1)
        (interleave-Same env w w1 (interleave-Same env w w (0, refl, refl))))
