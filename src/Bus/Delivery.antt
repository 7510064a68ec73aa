-- ===== src/Bus/Delivery.antt =====
-- What a claim of v2/src/footballai_v2/execution/queue/azure_service_bus.py does with the messages.
use technical_test_mitus_ai.Prelude.{
  ℕ, zero, suc, ◌≤◌, ◌<◌, String, ◌≡◌, refl, sym, ap, subst, ◌∙◌, ◌⊎◌, inl, inr, true, false,
  Option, none, some, List, [], ◌∷◌, ◌++◌, ltb, string_eq, length, All, Bool-cases, Option-cases,
  Error, ok, err, Result-cases, ok-injective, text_eq_refl, arith,
}
use technical_test_mitus_ai.Contract.Run.{AnalysisRun, is_terminal}
use technical_test_mitus_ai.Repository.{load}
use technical_test_mitus_ai.Repository.Tables.{Database}
use technical_test_mitus_ai.Queue.Jobs.{ExecutionJob, stamp, is_bad_worker}
use technical_test_mitus_ai.Bus.Broker.{
  Message, Settlement, completed, dead_lettered, ServiceBusQueue, turn_for, add_settlement, parse,
  executability, run, drain, unknown, Turn, settle_and_continue, take, turn, pop, get, Claim,
  claim_loop, claim, drain_limit,
}

-- The control plane knows the job's run, and the run is not finished.
abbrev pub Runnable : Option Database → ExecutionJob → Type 0
Runnable none job = Unit
Runnable (some store) job =
    (found : AnalysisRun) × (load job.run_id store ≡ ok found) × (is_terminal found.status ≡ false)

-- The control plane has the job's run as finished.
abbrev pub Finished : Option Database → ExecutionJob → Type 0
Finished none job = ⊥
Finished (some store) job =
    (found : AnalysisRun) × (load job.run_id store ≡ ok found) × (is_terminal found.status ≡ true)

-- The control plane does not know the job's run.
abbrev pub Unrecorded : Option Database → ExecutionJob → Type 0
Unrecorded none job = ⊥
Unrecorded (some store) job = (raised : Error) × (load job.run_id store ≡ err raised)

abbrev pub Executable : ServiceBusQueue → Message → ExecutionJob → Type 0
Executable q message job =
    (parse message ≡ some job)
    × (message.delivery_count ≤ q.max_delivery)
    × Runnable q.repository job

-- Only messages of finished runs are completed, and only those that cannot be read, were delivered
-- too often, or name an unrecorded run are dead-lettered.
abbrev pub Rightly : ServiceBusQueue → Settlement → Type 0
Rightly q (completed message) =
    (job : ExecutionJob) × (parse message ≡ some job)
    × (message.delivery_count ≤ q.max_delivery)
    × Finished q.repository job
Rightly q (dead_lettered message reason) =
    (parse message ≡ none)
    ⊎ ((q.max_delivery < message.delivery_count)
        ⊎ ((job : ExecutionJob) × (parse message ≡ some job) × Unrecorded q.repository job))

abbrev pub message_of : Settlement → Message
message_of (completed message) = message
message_of (dead_lettered message reason) = message

abbrev pub Judged : ServiceBusQueue → Message → Turn → Type 0
Judged q message (settle_and_continue s) = (message_of s ≡ message) × Rightly q s
Judged q message (take job) = Executable q message job

executability_cases :
    (o : Option Database) (job : ExecutionJob)
    → ((executability o job ≡ run) × Runnable o job)
      ⊎ (((executability o job ≡ drain) × Finished o job)
          ⊎ ((executability o job ≡ unknown) × Unrecorded o job))
unfolding executability
executability_cases none job = inl (refl, tt)
executability_cases (some store) job = elim (Result-cases (load job.run_id store)) [
  | inl (found, loaded) ↦ elim (Bool-cases (is_terminal found.status)) [
    | inl done ↦ inr (inl (rw (loaded, executability) (rw done refl), (found, loaded, done)))
    | inr active ↦ inl (rw (loaded, executability) (rw active refl), (found, loaded, active))
  ]
  | inr (raised, lost) ↦ inr (inr (rw (lost, executability) refl, (raised, lost)))
]

turn-unread :
    (q : ServiceBusQueue) (message : Message)
    → parse message ≡ none
    → turn q message ≡ settle_and_continue (dead_lettered message "unparseable")
unfolding turn
turn-unread q message unread = rw (unread, turn) refl

turn-often :
    (q : ServiceBusQueue) (message : Message) (job : ExecutionJob)
    → parse message ≡ some job
    → ltb q.max_delivery message.delivery_count ≡ true
    → turn q message ≡ settle_and_continue (dead_lettered message "max_delivery")
unfolding turn
turn-often q message job read often = rw (read, turn) (rw often refl)

turn-seldom :
    (q : ServiceBusQueue) (message : Message) (job : ExecutionJob)
    → parse message ≡ some job
    → ltb q.max_delivery message.delivery_count ≡ false
    → turn q message ≡ turn_for message job (executability q.repository job)
unfolding turn
turn-seldom q message job read seldom = rw (read, turn) (rw seldom refl)

turn-Judged : (q : ServiceBusQueue) (message : Message) → Judged q message (turn q message)
turn-Judged q message = elim (Option-cases (parse message)) [
  | inl unread ↦ subst (Judged q message) (sym (turn-unread q message unread)) (refl, inl unread)
  | inr (job, read) ↦ elim (Bool-cases (ltb q.max_delivery message.delivery_count)) [
    | inl often ↦
        subst (Judged q message) (sym (turn-often q message job read often))
          (refl, inr (inl (ground arith)))
    | inr seldom ↦
        let few : message.delivery_count ≤ q.max_delivery = ground arith in
        let step = turn-seldom q message job read seldom in
        elim (executability_cases q.repository job) [
          | inl (e, runnable) ↦
              subst (Judged q message) (sym (step ∙ ap (turn_for message job) e))
                (read, few, runnable)
          | inr (inl (e, finished)) ↦
              subst (Judged q message) (sym (step ∙ ap (turn_for message job) e))
                (refl, (job, read, few, finished))
          | inr (inr (e, lost)) ↦
              subst (Judged q message) (sym (step ∙ ap (turn_for message job) e))
                (refl, inr (inr (job, read, lost)))
        ]
  ]
]

abbrev messages_of : List Settlement → List Message
messages_of [] = []
messages_of (s ∷ settlements) = message_of s ∷ messages_of settlements

-- How the loop ends after it has settled the messages `passed`: with the next message taken, or with
-- no turn or no message left.
abbrev pub Ends :
    String → (now turns : ℕ) → ServiceBusQueue → (passed rest : List Message) → Claim → Type 0
Ends worker_id now turns q passed rest c =
    ((message : Message) × (later : List Message) × (job : ExecutionJob) × (rest ≡ message ∷ later)
      × Executable q message job
      × (c.job ≡ some (stamp worker_id now job))
      × (get job.job_id c.inflight ≡ some message)
      × (length passed < turns))
    ⊎ ((c.job ≡ none) × (c.inflight ≡ q.inflight) × ((length passed ≡ turns) ⊎ (rest ≡ [])))

abbrev pub Delivered : String → (now turns : ℕ) → ServiceBusQueue → List Message → Claim → Type 0
Delivered worker_id now turns q messages c =
    (rest : List Message) × (messages ≡ messages_of c.settlements ++ rest)
    × All (Rightly q) c.settlements
    × Ends worker_id now turns q (messages_of c.settlements) rest c

loop-settled :
    (worker_id : String) (now turns : ℕ) (q : ServiceBusQueue) (message : Message)
    (messages : List Message) (s : Settlement)
    → turn q message ≡ settle_and_continue s
    → claim_loop worker_id now (suc turns) q (message ∷ messages)
      ≡ add_settlement s (claim_loop worker_id now turns q messages)
unfolding claim_loop
loop-settled worker_id now turns q message messages s e = rw (e, claim_loop) refl

loop-taken :
    (worker_id : String) (now turns : ℕ) (q : ServiceBusQueue) (message : Message)
    (messages : List Message) (job : ExecutionJob)
    → turn q message ≡ take job
    → claim_loop worker_id now (suc turns) q (message ∷ messages) ≡ record {
      job = some (stamp worker_id now job);
      settlements = [];
      inflight = (job.job_id, message) ∷ pop job.job_id q.inflight;
    }
unfolding claim_loop
loop-taken worker_id now turns q message messages job e = rw (e, claim_loop) refl

Ends-suc :
    (worker_id : String) (now turns : ℕ) (q : ServiceBusQueue) (s : Settlement)
    (passed rest : List Message) (c : Claim)
    → Ends worker_id now turns q passed rest c
    → Ends worker_id now (suc turns) q (message_of s ∷ passed) rest (add_settlement s c)
Ends-suc worker_id now turns q s passed rest c (inl (message, later, job, e, x, j, g, few)) =
    inl (message, later, job, e, x, j, g, omega arith)
Ends-suc worker_id now turns q s passed rest c (inr (e, i, inl all)) = inr (e, i, inl (omega arith))
Ends-suc worker_id now turns q s passed rest c (inr (e, i, inr dry)) = inr (e, i, inr dry)

Turn-cases :
    (t : Turn)
    → ((s : Settlement) × (t ≡ settle_and_continue s)) ⊎ ((job : ExecutionJob) × (t ≡ take job))
Turn-cases (settle_and_continue s) = inl (s, refl)
Turn-cases (take job) = inr (job, refl)

get_self :
    (k : String) (m : Message) (entries : List (String × Message))
    → get k ((k, m) ∷ entries) ≡ some m
get_self k m entries = rw (text_eq_refl k) refl

settled-Delivered :
    (worker_id : String) (now turns : ℕ) (q : ServiceBusQueue) (message : Message)
    (messages : List Message) (s : Settlement)
    → turn q message ≡ settle_and_continue s
    → Delivered worker_id now turns q messages (claim_loop worker_id now turns q messages)
    → Delivered worker_id now
        (suc turns)
        q
        (message ∷ messages)
        (claim_loop worker_id now (suc turns) q (message ∷ messages))
settled-Delivered worker_id now turns q message messages s e (rest, split, rightly, ends) =
    let judged = subst (Judged q message) e (turn-Judged q message) in
    let c = claim_loop worker_id now turns q messages in
    subst (Delivered worker_id now (suc turns) q (message ∷ messages))
      (sym (loop-settled worker_id now turns q message messages s e))
      (
        rest,
        ap (λ m. m ∷ messages) (sym judged.0) ∙ ap (λ ms. message_of s ∷ ms) split,
        (judged.1, rightly),
        Ends-suc worker_id now turns q s (messages_of c.settlements) rest c ends,
      )

taken-Delivered :
    (worker_id : String) (now turns : ℕ) (q : ServiceBusQueue) (message : Message)
    (messages : List Message) (job : ExecutionJob)
    → turn q message ≡ take job
    → Delivered worker_id now
        (suc turns)
        q
        (message ∷ messages)
        (claim_loop worker_id now (suc turns) q (message ∷ messages))
taken-Delivered worker_id now turns q message messages job e =
    subst (Delivered worker_id now (suc turns) q (message ∷ messages))
      (sym (loop-taken worker_id now turns q message messages job e))
      (
        message ∷ messages,
        refl,
        tt,
        inl (
          message,
          messages,
          job,
          refl,
          subst (Judged q message) e (turn-Judged q message),
          refl,
          get_self job.job_id message (pop job.job_id q.inflight),
          omega arith,
        ),
      )

pub claim_loop-Delivered :
    (worker_id : String) (now turns : ℕ) (q : ServiceBusQueue) (messages : List Message)
    → Delivered worker_id now turns q messages (claim_loop worker_id now turns q messages)
unfolding claim_loop
claim_loop-Delivered worker_id now zero q messages =
    (messages, refl, tt, inr (refl, refl, inl refl))
claim_loop-Delivered worker_id now (suc turns) q [] = ([], refl, tt, inr (refl, refl, inr refl))
claim_loop-Delivered worker_id now (suc turns) q (message ∷ messages) =
    elim (Turn-cases (turn q message)) [
      | inl (s, e) ↦
          settled-Delivered worker_id now turns q message messages s e
            (claim_loop-Delivered worker_id now turns q messages)
      | inr (job, e) ↦ taken-Delivered worker_id now turns q message messages job e
    ]

-- A claim that returns settles the first messages, one settlement each, in their order: it
-- completes only messages of finished runs, and dead-letters only those that cannot be read, were
-- delivered too often, or name an unrecorded run. It then takes the next one, which is readable
-- and not delivered too often and, where the queue has a repository, of a run that is recorded and
-- not finished, remembers it under the id of the job and returns the job with worker and time;
-- without a repository the run is not looked at. Or it returns nothing, because 16 messages were
-- settled or none is left.
pub claim-Delivered :
    (worker_id : String) (now : ℕ) (q : ServiceBusQueue) (messages : List Message) (c : Claim)
    → claim worker_id now q messages ≡ ok c
    → Delivered worker_id now drain_limit q messages c
unfolding claim
claim-Delivered worker_id now q messages c h = elim (Bool-cases (is_bad_worker worker_id)) [
  | inl bad ↦ cc (rw bad at h)
  | inr fine ↦
      subst (Delivered worker_id now drain_limit q messages) (ok-injective (rw fine at h))
        (claim_loop-Delivered worker_id now drain_limit q messages)
]
