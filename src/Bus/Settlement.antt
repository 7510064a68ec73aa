-- ===== src/Bus/Settlement.antt =====
-- `complete` and `fail` of v2/src/footballai_v2/execution/queue/azure_service_bus.py.
use technical_test_mitus_ai.Prelude.{
  String, ◌≡◌, refl, ap, inl, inr, false, none, some, List, [], ◌∷◌, ◌==◌, string_eq, if◌then◌else◌,
  Bool-cases, text_eq_iff,
}
use technical_test_mitus_ai.Queue.Jobs.{ExecutionJob}
use technical_test_mitus_ai.Bus.Broker.{
  Message, ServiceBusQueue, pop, get, stopped, complete_message, complete, fail, settle, settled,
}

get-pop : (k : String) (entries : List (String × Message)) → get k (pop k entries) ≡ none
get-pop k [] = refl
get-pop k ((j, m) ∷ entries) = elim (Bool-cases (j == k)) [
  | inl same ↦ rw same (get-pop k entries)
  | inr other ↦ rw other (rw other (get-pop k entries))
]

get-pop_other :
    (k l : String) (entries : List (String × Message))
    → l == k ≡ false
    → get k (pop l entries) ≡ get k entries
get-pop_other k l [] other = refl
get-pop_other k l ((j, m) ∷ entries) other = elim (Bool-cases (j == l)) [
  | inl gone ↦
      let away : j == k ≡ false = cc (ap (λ x. x == k) ((text_eq_iff j l).0 gone), other) in
      rw gone (rw away (get-pop_other k l entries other))
  | inr kept ↦
      rw kept (ap (λ rest. if j == k then some m else rest) (get-pop_other k l entries other))
]

-- For a job whose message is in flight, complete and fail do the same: they stop the renewer of exactly
-- this message and then complete it, and do nothing when the job is settled again; the messages of
-- other jobs stay in flight.
pub settle-once :
    (job : ExecutionJob) (message : Message) (q : ServiceBusQueue) (other_id : String)
    → get job.job_id q.inflight ≡ some message
    → job.job_id == other_id ≡ false
    → ((complete job q).0 ≡ stopped message ∷ complete_message message ∷ [])
      × (fail job q ≡ complete job q)
      × ((complete job (complete job q).1).0 ≡ [])
      × ((fail job (complete job q).1).0 ≡ [])
      × (get other_id (complete job q).1.inflight ≡ get other_id q.inflight)
unfolding complete fail settle
settle-once job message q other_id h other =
    let gone = ap (settled false) (get-pop job.job_id q.inflight) in
    (ap (settled false) h, refl, gone, gone, get-pop_other other_id job.job_id q.inflight other)
