-- ===== src/Bus/Broker.antt =====
-- v2/src/footballai_v2/execution/queue/azure_service_bus.py. The broker is an environment: a claim is
-- given the messages that `receive_messages` returns, one a call, in their order, and what it does to
-- them is the list of its settlements.
use technical_test_mitus_ai.Prelude.{
  ℕ, zero, suc, String, Option, none, some, List, [], ◌∷◌, ltb, ◌==◌, string_eq, if◌then◌else◌,
  Result, ok, err, value_error, Bool, false,
}
use technical_test_mitus_ai.Contract.Run.{is_terminal}
use technical_test_mitus_ai.Repository.{load}
use technical_test_mitus_ai.Repository.Tables.{Database}
use technical_test_mitus_ai.Queue.Jobs.{ExecutionJob, execution_job, is_bad_worker, stamp}

-- A received message. `body` holds the fields that the JSON body stands for, and nothing where it is no
-- JSON object with the eight keys.
pub record Message : Type 0 where
  pub lock_token : String
  pub delivery_count : ℕ
  pub body : Option ExecutionJob

-- What is done with a message: `complete_message`, or `dead_letter_message` with a reason.
pub data Settlement : Type 0 where
  completed : Message → Settlement
  dead_lettered : Message → String → Settlement

-- The fields of `AzureServiceBusQueue` that change or that a claim reads.
pub record ServiceBusQueue : Type 0 where
  pub repository : Option Database
  pub max_delivery : ℕ
  pub inflight : List (String × Message)

abbrev as_parsed : Result ExecutionJob → Option ExecutionJob
as_parsed (ok job) = some job
as_parsed (err raised) = none

-- `_parse`
unfoldable pub parse : Message → Option ExecutionJob
unfolding execution_job
parse message = elim message.body [ some fields ↦ as_parsed (execution_job fields) | none ↦ none ]

pub data Disposition : Type 0 where
  run drain unknown : Disposition

-- `_executability`
unfoldable pub executability : Option Database → ExecutionJob → Disposition
unfolding load
executability none job = run
executability (some store) job = elim (load job.run_id store) [
  | ok found ↦ if is_terminal found.status then drain else run
  | err raised ↦ unknown
]

-- What one turn of the loop does with a message.
pub data Turn : Type 0 where
  settle_and_continue : Settlement → Turn
  take : ExecutionJob → Turn

abbrev pub turn_for : Message → ExecutionJob → Disposition → Turn
turn_for message job run = take job
turn_for message job drain = settle_and_continue (completed message)
turn_for message job unknown = settle_and_continue (dead_lettered message "unknown_run")

unfoldable pub turn : ServiceBusQueue → Message → Turn
unfolding parse executability
turn q message = elim (parse message) [
  | none ↦ settle_and_continue (dead_lettered message "unparseable")
  | some job ↦
      if ltb q.max_delivery message.delivery_count
      then settle_and_continue (dead_lettered message "max_delivery")
      else turn_for message job (executability q.repository job)
]

-- `dict.pop(key, None)` and `dict[key] = value`
abbrev pub pop : String → List (String × Message) → List (String × Message)
pop k [] = []
pop k ((j, m) ∷ entries) = let rest = pop k entries in if j == k then rest else (j, m) ∷ rest

abbrev pub get : String → List (String × Message) → Option Message
get k [] = none
get k ((j, m) ∷ entries) = let rest = get k entries in if j == k then some m else rest

pub record Claim : Type 0 where
  pub job : Option ExecutionJob
  pub settlements : List Settlement
  pub inflight : List (String × Message)

abbrev pub add_settlement : Settlement → Claim → Claim
add_settlement s c = record c { settlements = s ∷ c.settlements }

-- The loop of `claim`, with the turns that are left and the messages that the broker has
unfoldable pub claim_loop :
    (worker_id : String) (now turns : ℕ) → ServiceBusQueue → List Message → Claim
unfolding turn
claim_loop worker_id now zero q messages = record {
  job = none;
  settlements = [];
  inflight = q.inflight;
}
claim_loop worker_id now (suc turns) q [] = record {
  job = none;
  settlements = [];
  inflight = q.inflight;
}
claim_loop worker_id now (suc turns) q (message ∷ messages) = elim (turn q message) [
  | settle_and_continue s ↦ add_settlement s (claim_loop worker_id now turns q messages)
  | take job ↦ record {
    job = some (stamp worker_id now job);
    settlements = [];
    inflight = (job.job_id, message) ∷ pop job.job_id q.inflight;
  }
]

-- `_DRAIN_LIMIT`
abbrev pub drain_limit : ℕ
drain_limit = 16

unfoldable pub claim : String → ℕ → ServiceBusQueue → List Message → Result Claim
unfolding is_bad_worker claim_loop
claim worker_id now q messages =
    if is_bad_worker worker_id
    then err value_error
    else ok (claim_loop worker_id now drain_limit q messages)

-- What settling a job does to the outside: the stop of the renewer that renews the lock of a message,
-- and the settlement of the message
pub data Effect : Type 0 where
  stopped : Message → Effect
  complete_message dead_letter_message : Message → Effect

abbrev pub settled : (dead_letter : Bool) → Option Message → List Effect
settled dead_letter none = []
settled dead_letter (some message) =
    stopped message
    ∷ (if dead_letter then dead_letter_message message else complete_message message)
    ∷ []

-- `_settle`
unfoldable pub settle :
    (dead_letter : Bool) → ExecutionJob → ServiceBusQueue → List Effect × ServiceBusQueue
settle dead_letter job q = (
  settled dead_letter (get job.job_id q.inflight),
  record q { inflight = pop job.job_id q.inflight },
)

unfoldable pub complete : ExecutionJob → ServiceBusQueue → List Effect × ServiceBusQueue
unfolding settle
complete job q = settle false job q

unfoldable pub fail : ExecutionJob → ServiceBusQueue → List Effect × ServiceBusQueue
unfolding settle
fail job q = settle false job q
