-- ===== src/Queue/Service.antt =====
-- The queue of v2/src/footballai_v2/execution/queue/base.py as its clients use it: one method call after
-- another, by any number of workers.
use technical_test_mitus_ai.Prelude.{
  ℕ, String, ◌≡◌, refl, ap, ◌∙◌, inl, inr, Bool, true, false, List, [], ◌∷◌, ◌++◌, ◌==◌, string_eq,
  contains, Distinct, All, Bool-cases, Error, ok, err, value_error, Result-cases, text_eq_iff, ◌||◌,
  map, ◌-◌,
}
use technical_test_mitus_ai.Contract.Text.{validate_run_id}
use technical_test_mitus_ai.Repository.Tables.{Database}
use technical_test_mitus_ai.Queue.Jobs.{ExecutionJob, is_bad_worker}
use technical_test_mitus_ai.Queue.Files.{
  Place, place_eq, place_number, queued, claimed, completed, failed, cancelled, unreadable,
  readable, names_in,
}
use technical_test_mitus_ai.Queue.Local.{
  Queue, with_files, claimed_result, enqueue, sort_names, claim_from, claim, complete, fail,
  listing, cancel_from, cancel, timeout, recover_abandoned,
}
use technical_test_mitus_ai.Queue.Records.{Record, records, names}
use technical_test_mitus_ai.Queue.Conservation.{
  Own, Orderly, Active, claim_from-records, terminal_move-records, cancel_from-records,
}
use technical_test_mitus_ai.Queue.Recovery.{recover_from-records}

pub data Request : Type 0 where
  call_enqueue : ExecutionJob → Request
  call_claim : (worker_id : String) (now : ℕ) → Request
  call_complete : ExecutionJob → Request
  call_fail : ExecutionJob → Request
  call_cancel : (run_id : String) → Request
  call_recover : (microseconds now : ℕ) → Database → Request

unfoldable pub serve : Request → Queue → Queue
unfolding enqueue claim cancel recover_abandoned
serve (call_enqueue job) q = (enqueue job q).1
serve (call_claim worker_id now) q = (claim worker_id now q).1
serve (call_complete job) q = complete job q
serve (call_fail job) q = fail job q
serve (call_cancel run_id) q = (cancel run_id q).1
serve (call_recover microseconds now store) q = (recover_abandoned microseconds now store q).1

unfoldable pub serve_all : List Request → Queue → Queue
unfolding serve
serve_all [] q = q
serve_all (r ∷ requests) q = serve_all requests (serve r q)

abbrev pub run_ids : List Record → List String
run_ids [] = []
run_ids ((n, unreadable) ∷ rs) = run_ids rs
run_ids ((n, readable job) ∷ rs) = job.run_id ∷ run_ids rs

-- Every file has a name of its own in the whole tree, stands under its job's id with its run
-- reserved, and no run has two jobs.
abbrev pub Sound : Queue → Type 0
Sound q = Orderly q.run_index q.files × Distinct (run_ids (records q.files))

-- The id of a new job is not in use.
abbrev pub Fresh : Request → Queue → Type 0
Fresh (call_enqueue job) q = contains (names (records q.files)) job.job_id ≡ false
Fresh _ q = Unit

abbrev pub FreshAll : List Request → Queue → Type 0
FreshAll [] q = Unit
FreshAll (r ∷ requests) q = Fresh r q × FreshAll requests (serve r q)

-- A request that adds no job
abbrev pub Serves : Request → Type 0
Serves (call_enqueue job) = ⊥
Serves _ = Unit

Active-++ : (xs ys : List (Place × String)) → Active xs → Active ys → Active (xs ++ ys)
Active-++ [] ys a b = b
Active-++ ((p, n) ∷ xs) ys a b = (a.0, Active-++ xs ys a.1 b)

listing-Active :
    (p : Place) (ns : List String) → cancelled == p ≡ false → Active (map (λ n. (p, n)) ns)
listing-Active p [] other = tt
listing-Active p (n ∷ ns) other = (other, listing-Active p ns other)

pub claim-fine :
    (worker_id : String) (now : ℕ) (q : Queue)
    → is_bad_worker worker_id ≡ false
    → claim worker_id now q
      ≡ claimed_result q (claim_from worker_id now (sort_names (names_in queued q.files)) q.files)
unfolding claim
claim-fine worker_id now q fine = rw (fine, claim) refl

pub claim-bad :
    (worker_id : String) (now : ℕ) (q : Queue)
    → is_bad_worker worker_id ≡ true
    → claim worker_id now q ≡ (err value_error, q)
unfolding claim
claim-bad worker_id now q bad = rw (bad, claim) refl

pub cancel-valid :
    (run_id : String) (done : Unit {0}) (q : Queue)
    → validate_run_id run_id ≡ ok done
    → (cancel run_id q).1
      ≡ with_files
          (cancel_from run_id (listing queued q.files ++ listing claimed q.files) q.files).1
          q
unfolding cancel
cancel-valid run_id done q valid = rw (valid, cancel) refl

pub cancel-invalid :
    (run_id : String) (raised : Error) (q : Queue)
    → validate_run_id run_id ≡ err raised
    → cancel run_id q ≡ (err raised, q)
unfolding cancel
cancel-invalid run_id raised q invalid = rw (invalid, cancel) refl

-- Claim, complete, fail, cancel and recover_abandoned, called in any state in which names are unique
-- and each record is under its own id, keep all jobs: after them the tree holds the same records in
-- the same order, changed in their directory and claim fields at most.
pub serve-records :
    (r : Request) (q : Queue)
    → Serves r
    → Orderly q.run_index q.files
    → records (serve r q).files ≡ records q.files
unfolding serve claim cancel recover_abandoned place_number
serve-records (call_enqueue job) q serves sound = absurd serves
serve-records (call_claim worker_id now) q serves sound =
    elim (Bool-cases (is_bad_worker worker_id)) [
      | inl bad ↦ ap (λ r. records r.1.files) (claim-bad worker_id now q bad)
      | inr fine ↦
          ap (λ r. records r.1.files) (claim-fine worker_id now q fine)
          ∙ claim_from-records worker_id now (sort_names (names_in queued q.files)) q.run_index
              q.files sound
    ]
serve-records (call_complete job) q serves sound = terminal_move-records completed job q.files
serve-records (call_fail job) q serves sound = terminal_move-records failed job q.files
serve-records (call_cancel run_id) q serves sound = elim (Result-cases (validate_run_id run_id)) [
  | inl (done, valid) ↦
      ap (λ r. records r.files) (cancel-valid run_id done q valid)
      ∙ cancel_from-records run_id (listing queued q.files ++ listing claimed q.files) q.run_index
          q.files
          (Active-++ (listing queued q.files) (listing claimed q.files)
            (listing-Active queued (names_in queued q.files) refl)
            (listing-Active claimed (names_in claimed q.files) refl))
          sound
  | inr (raised, invalid) ↦ ap (λ r. records r.1.files) (cancel-invalid run_id raised q invalid)
]
serve-records (call_recover microseconds now store) q serves sound =
    recover_from-records (now - timeout microseconds) store (names_in claimed q.files) q.run_index 0
      q.files sound

-- None of these calls touches the reservations.
pub serve-run_index : (r : Request) (q : Queue) → Serves r → (serve r q).run_index ≡ q.run_index
unfolding serve recover_abandoned
serve-run_index (call_enqueue job) q serves = absurd serves
serve-run_index (call_claim worker_id now) q serves = elim (Bool-cases (is_bad_worker worker_id)) [
  | inl bad ↦ ap (λ r. r.1.run_index) (claim-bad worker_id now q bad)
  | inr fine ↦ ap (λ r. r.1.run_index) (claim-fine worker_id now q fine)
]
serve-run_index (call_complete job) q serves = refl
serve-run_index (call_fail job) q serves = refl
serve-run_index (call_cancel run_id) q serves = elim (Result-cases (validate_run_id run_id)) [
  | inl (done, valid) ↦ ap Queue.run_index (cancel-valid run_id done q valid)
  | inr (raised, invalid) ↦ ap (λ r. r.1.run_index) (cancel-invalid run_id raised q invalid)
]
serve-run_index (call_recover microseconds now store) q serves = refl

pub or_true : (b : Bool) → (b || true) ≡ true
or_true true = refl
or_true false = refl

pub Own-more :
    (run_id : String) (run_index : List String) (rs : List Record)
    → All (Own run_index) rs
    → All (Own (run_id ∷ run_index)) rs
unfolding contains
Own-more run_id run_index [] own = tt
Own-more run_id run_index ((n, unreadable) ∷ rs) own = (tt, Own-more run_id run_index rs own.1)
Own-more run_id run_index ((n, readable job) ∷ rs) own =
    ((own.0.0, rw own.0.1 (or_true (run_id == job.run_id))), Own-more run_id run_index rs own.1)

-- A run without a reservation has no job.
pub unreserved :
    (run_id : String) (run_index : List String) (rs : List Record)
    → All (Own run_index) rs
    → contains run_index run_id ≡ false
    → contains (run_ids rs) run_id ≡ false
unfolding contains
unreserved run_id run_index [] own free = refl
unreserved run_id run_index ((n, unreadable) ∷ rs) own free =
    unreserved run_id run_index rs own.1 free
unreserved run_id run_index ((n, readable job) ∷ rs) own free =
    elim (Bool-cases (job.run_id == run_id)) [
      | inl same ↦
          cc (ap (contains run_index) ((text_eq_iff job.run_id run_id).0 same), own.0.1, free)
      | inr other ↦ rw other (unreserved run_id run_index rs own.1 free)
    ]
