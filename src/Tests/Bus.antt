-- ===== src/Tests/Bus.antt =====
-- Claims of the Service Bus queue and lock renewals at sample inputs.
use technical_test_mitus_ai.Prelude.{
  true, ◌≡◌, refl, ◌⊎◌, ◌≢◌, ◌<◌, ◌≤◌, ◌*◌, none, some, [], ◌∷◌, string_eq, length, contains,
  list_beq, ok, arith,
}
use technical_test_mitus_ai.Queue.Jobs.{ExecutionJob, execution_job, is_bad_worker, stamp}
use technical_test_mitus_ai.Bus.Broker.{
  Message, dead_lettered, ServiceBusQueue, parse, executability, turn, get, Claim, claim_loop,
  drain_limit, claim, complete, fail, stopped, complete_message, dead_letter_message, settle,
}
use technical_test_mitus_ai.Bus.Delivery.{Delivered, claim-Delivered}
use technical_test_mitus_ai.Bus.Settlement.{settle-once}
use technical_test_mitus_ai.Bus.Renewal.{
  renewal_succeeds, renewal_raises, waiting, lifetime_reached, new_renewer, run_loop,
}
use technical_test_mitus_ai.Bus.Lifetime.{run_loop-bounded}
use technical_test_mitus_ai.Tests.Repository.{database_program, created}
use technical_test_mitus_ai.Tests.Samples.{logical_id, first_id, second_id}

unfoldable pub bus_program : Unit {0}
unfolding database_program contains list_beq execution_job is_bad_worker parse executability turn
    claim_loop claim settle complete fail run_loop
bus_program = tt

abbrev job : ExecutionJob
job = record {
  job_id = second_id;
  run_id = first_id;
  logical_analysis_id = logical_id;
  attempt_number = 1;
  pipeline_profile = "demo_fast";
  created_at = 100;
  claimed_at = none;
  worker_id = none;
}

abbrev poison : Message
poison = record { lock_token = "a"; delivery_count = 1; body = none }

abbrev worn : Message
worn = record { lock_token = "b"; delivery_count = 6; body = some job }

abbrev good : Message
good = record { lock_token = "c"; delivery_count = 5; body = some job }

abbrev bus : ServiceBusQueue
bus = record { repository = some created; max_delivery = 5; inflight = [] }

abbrev claimed_bus : ServiceBusQueue
claimed_bus = record bus { inflight = (second_id, good) ∷ [] }

abbrev taken : Claim
taken = record {
  job = some (stamp "worker" 200 job);
  settlements = dead_lettered poison "unparseable" ∷ dead_lettered worn "max_delivery" ∷ [];
  inflight = (second_id, good) ∷ [];
}

claims : claim "worker" 200 bus (poison ∷ worn ∷ good ∷ poison ∷ []) ≡ ok taken
unfolding bus_program
claims = refl

claim-Delivered_example :
    Delivered "worker" 200 drain_limit bus (poison ∷ worn ∷ good ∷ poison ∷ []) taken
claim-Delivered_example =
    claim-Delivered "worker" 200 bus (poison ∷ worn ∷ good ∷ poison ∷ []) taken claims

settle-once_example :
    ((complete job claimed_bus).0 ≡ stopped good ∷ complete_message good ∷ [])
    × (fail job claimed_bus ≡ complete job claimed_bus)
    × ((complete job (complete job claimed_bus).1).0 ≡ [])
    × ((fail job (complete job claimed_bus).1).0 ≡ [])
    × (get first_id (complete job claimed_bus).1.inflight ≡ get first_id claimed_bus.inflight)
settle-once_example = settle-once job good claimed_bus first_id refl refl

renews :
    (run_loop 30 90 (renewal_succeeds ∷ renewal_raises ∷ renewal_succeeds ∷ []) new_renewer).0
    ≡ lifetime_reached
unfolding bus_program
renews = refl

run_loop-bounded_example :
    ((run_loop 30 90 (renewal_succeeds ∷ []) new_renewer).1.calls * 30 < 90)
    × ((run_loop 30 90 (renewal_succeeds ∷ []) new_renewer).1.renewals
        ≤ (run_loop 30 90 (renewal_succeeds ∷ []) new_renewer).1.calls)
    × (((run_loop 30 90 (renewal_succeeds ∷ []) new_renewer).0 ≢ waiting)
        ⊎ (length (renewal_succeeds ∷ []) * 30 < 90))
run_loop-bounded_example = run_loop-bounded 30 90 (renewal_succeeds ∷ []) (omega arith)

dead_letter_run : (settle true job claimed_bus).0 ≡ stopped good ∷ dead_letter_message good ∷ []
unfolding bus_program
dead_letter_run = refl
