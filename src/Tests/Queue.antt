-- ===== src/Tests/Queue.antt =====
-- The filesystem queue at sample jobs.
use technical_test_mitus_ai.Prelude.{
  ◌≡◌, refl, true, false, none, some, [], ◌∷◌, contains, list_beq, ok, err, duplicate_job_error,
  ◌==◌,
}
use technical_test_mitus_ai.Queue.Jobs.{ExecutionJob, execution_job, is_bad_worker, stamp}
use technical_test_mitus_ai.Queue.Files.{
  place_eq, place_number, queued, claimed, completed, unreadable, readable, exists, names_in,
  unlink, relabel, os_replace, write_replace, move_raw, read,
}
use technical_test_mitus_ai.Queue.Local.{
  Queue, enqueue, take, set_aside, claim_from, claim, terminal_move, cancel_from, cancel,
  recover_job, recover_one, recover_from, recover_abandoned,
}
use technical_test_mitus_ai.Queue.Service.{
  call_enqueue, call_claim, call_complete, serve, serve_all, Sound, FreshAll,
}
use technical_test_mitus_ai.Queue.Invariant.{Extends, serve_all-Extends}
use technical_test_mitus_ai.Queue.Claims.{Claimed, claim-Claimed}
use technical_test_mitus_ai.Queue.Conservation.{Orderly}
use technical_test_mitus_ai.Queue.Drained.{claim-drained}
use technical_test_mitus_ai.Queue.Finality.{serve_all-Final}
use technical_test_mitus_ai.Tests.Repository.{database_program, created}
use technical_test_mitus_ai.Tests.Samples.{logical_id, first_id, second_id}

unfoldable pub queue_program : Unit {0}
unfolding database_program contains list_beq execution_job is_bad_worker place_number exists unlink
    relabel os_replace write_replace move_raw read enqueue take set_aside claim_from claim
    terminal_move cancel_from cancel recover_job recover_one recover_from recover_abandoned serve
    serve_all
queue_program = tt

abbrev pub job : ExecutionJob
job = record {
  job_id = second_id;
  run_id = first_id;
  logical_analysis_id = logical_id;
  attempt_number = 1;
  pipeline_profile = "demo_fast";
  created_at = 100;
  claimed_at = none;
  worker_id = none;
}

abbrev none_queued : Queue
none_queued = record { files = []; run_index = [] }

abbrev pub one_queued : Queue
one_queued = record {
  files = record { place = queued; name = second_id; content = readable job } ∷ [];
  run_index = first_id ∷ [];
}

-- The run's one job is queued, claimed and completed; a second job of the run is refused.
lifecycle :
    (serve (call_enqueue job) none_queued ≡ one_queued)
    × (enqueue job one_queued ≡ (err duplicate_job_error, one_queued))
    × ((serve_all (call_claim "worker" 200 ∷ call_complete job ∷ []) one_queued).files
        ≡ record {
          place = completed;
          name = second_id;
          content = readable (stamp "worker" 200 job);
        }
          ∷ [])
unfolding queue_program
lifecycle = (refl, refl, refl)

pub one_queued-Sound : Sound one_queued
unfolding queue_program
one_queued-Sound = (((refl, tt), ((refl, refl), tt)), (refl, tt))

fresh : FreshAll (call_enqueue job ∷ call_claim "worker" 200 ∷ []) none_queued
unfolding queue_program
fresh = (refl, (tt, tt))

claims : (claim "worker" 200 one_queued).0 ≡ ok (some (stamp "worker" 200 job))
unfolding queue_program
claims = refl

serve_all-Extends_example :
    Extends 1 none_queued (serve_all (call_enqueue job ∷ call_claim "worker" 200 ∷ []) none_queued)
serve_all-Extends_example =
    serve_all-Extends (call_enqueue job ∷ call_claim "worker" 200 ∷ []) none_queued fresh
      ((tt, tt), tt)

claim-Claimed_example :
    Claimed "worker" 200
      (stamp "worker" 200 job)
      one_queued.files
      (claim "worker" 200 one_queued).1.files
claim-Claimed_example =
    claim-Claimed "worker" 200 (stamp "worker" 200 job) one_queued one_queued-Sound.0 claims

abbrev one_completed : Queue
one_completed = record {
  files = record { place = completed; name = second_id; content = readable job } ∷ [];
  run_index = first_id ∷ [];
}

completed-Final : (queued == completed ≡ false) × (claimed == completed ≡ false)
unfolding place_number
completed-Final = (refl, refl)

completed_there : exists completed second_id one_completed.files ≡ true
unfolding queue_program
completed_there = refl

serve_all-Final_example :
    exists completed second_id (serve_all (call_claim "worker" 200 ∷ []) one_completed).files ≡ true
serve_all-Final_example =
    serve_all-Final completed second_id completed-Final (call_claim "worker" 200 ∷ []) one_completed
      completed_there

-- A worker that stops between the rename and the rewrite of a claim leaves the job in `claimed`, where
-- no call of `recover_abandoned` moves it while its run is queued.
abbrev half_claimed : Queue
half_claimed = record {
  files = record { place = claimed; name = second_id; content = readable job } ∷ [];
  run_index = first_id ∷ [];
}

half_claimed-left : recover_abandoned 0 1000000 created half_claimed ≡ (0, half_claimed)
unfolding queue_program
half_claimed-left = refl

abbrev one_unreadable : Queue
one_unreadable = record {
  files = record { place = queued; name = second_id; content = unreadable } ∷ [];
  run_index = first_id ∷ [];
}

unreadable-Orderly : Orderly one_unreadable.run_index one_unreadable.files
unfolding queue_program
unreadable-Orderly = ((refl, tt), (tt, tt))

claims_none : (claim "worker" 200 one_unreadable).0 ≡ ok none
unfolding queue_program
claims_none = refl

claim-drained_example : names_in queued (claim "worker" 200 one_unreadable).1.files ≡ []
claim-drained_example = claim-drained "worker" 200 one_unreadable unreadable-Orderly claims_none
