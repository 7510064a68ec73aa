-- ===== src/Queue/Invariant.antt =====
-- The invariant of the queue of v2/src/footballai_v2/execution/queue/local_filesystem.py over all
-- sequences of calls.
use technical_test_mitus_ai.Prelude.{
  ℕ, ◌+◌, ◌≤◌, ◌≡◌, refl, sym, ap, ◌∙◌, inl, inr, false, none, List, [], ◌∷◌, ◌++◌, string_eq,
  contains, length, Bool-cases, text_eq_refl, length-++, append_assoc, arith,
}
use technical_test_mitus_ai.Queue.Jobs.{ExecutionJob}
use technical_test_mitus_ai.Queue.Files.{queued, readable, exists}
use technical_test_mitus_ai.Queue.Local.{Queue, enqueue}
use technical_test_mitus_ai.Queue.Records.{Record, records, names}
use technical_test_mitus_ai.Queue.Service.{
  Request, call_enqueue, call_claim, call_complete, call_fail, call_cancel, call_recover, serve,
  serve_all, Sound, Fresh, FreshAll, Serves, serve-records, serve-run_index, Own-more, unreserved,
}

abbrev pub enqueues : List Request → ℕ
enqueues [] = 0
enqueues (call_enqueue job ∷ requests) = 1 + enqueues requests
enqueues (_ ∷ requests) = enqueues requests

-- The queue is sound and holds the jobs of an earlier one, and `n` more at most.
abbrev pub Extends : ℕ → Queue → Queue → Type 0
Extends n q q' =
    Sound q'
    × ((added : List Record) × (records q'.files ≡ added ++ records q.files) × (length added ≤ n))

enqueue-Extends :
    (job : ExecutionJob) (q : Queue)
    → contains (names (records q.files)) job.job_id ≡ false
    → Sound q
    → Extends 1 q (enqueue job q).1
unfolding enqueue contains
enqueue-Extends job q fresh sound = elim (Bool-cases (contains q.run_index job.run_id)) [
  | inl reserved ↦ rw reserved (sound, ([], refl, omega arith))
  | inr free ↦ rw free (elim (Bool-cases (exists queued job.job_id q.files)) [
    | inl taken ↦ rw taken (sound, ([], refl, omega arith))
    | inr unused ↦ rw unused (
      (
        (
          (fresh, sound.0.0),
          (
            (refl, rw (text_eq_refl job.run_id) refl),
            Own-more job.run_id q.run_index (records q.files) sound.0.1,
          ),
        ),
        (unreserved job.run_id q.run_index (records q.files) sound.0.1 free, sound.1),
      ),
      (
        (job.job_id, readable (record job { claimed_at = none; worker_id = none })) ∷ [],
        refl,
        omega arith,
      ),
    )
  ])
]

Serves-Extends : (r : Request) (q : Queue) → Serves r → Sound q → Extends 0 q (serve r q)
Serves-Extends r q serves sound =
    let kept = serve-records r q serves sound.0 in
    (rw kept (rw (serve-run_index r q serves) sound), ([], kept, omega arith))

serve-Extends :
    (r : Request) (q : Queue) → Fresh r q → Sound q → Extends (enqueues (r ∷ [])) q (serve r q)
unfolding serve
serve-Extends (call_enqueue job) q fresh sound = enqueue-Extends job q fresh sound
serve-Extends (call_claim worker_id now) q fresh sound =
    Serves-Extends (call_claim worker_id now) q tt sound
serve-Extends (call_complete job) q fresh sound = Serves-Extends (call_complete job) q tt sound
serve-Extends (call_fail job) q fresh sound = Serves-Extends (call_fail job) q tt sound
serve-Extends (call_cancel run_id) q fresh sound = Serves-Extends (call_cancel run_id) q tt sound
serve-Extends (call_recover microseconds now store) q fresh sound =
    Serves-Extends (call_recover microseconds now store) q tt sound

enqueues-cons :
    (r : Request) (requests : List Request)
    → enqueues (r ∷ requests) ≡ enqueues (r ∷ []) + enqueues requests
enqueues-cons (call_enqueue job) requests = omega arith
enqueues-cons (call_claim worker_id now) requests = omega arith
enqueues-cons (call_complete job) requests = omega arith
enqueues-cons (call_fail job) requests = omega arith
enqueues-cons (call_cancel run_id) requests = omega arith
enqueues-cons (call_recover microseconds now store) requests = omega arith

-- Whatever sequence of calls the queue serves from a sound state, each enqueued job having an id
-- that is not in use: it stays sound, so every file has one name in one directory, stands under its
-- job's id, and no run has two jobs. It also still holds every earlier job, with new claim fields at
-- most, and no more new jobs than there were enqueue calls.
pub serve_all-Extends :
    (requests : List Request) (q : Queue)
    → FreshAll requests q
    → Sound q
    → Extends (enqueues requests) q (serve_all requests q)
unfolding serve_all
serve_all-Extends [] q fresh sound = (sound, ([], refl, omega arith))
serve_all-Extends (r ∷ requests) q fresh sound =
    let (first, (one, grown, few)) = serve-Extends r q fresh.0 sound in
    let (last, (rest, grown', few')) = serve_all-Extends requests (serve r q) fresh.1 first in
    (
      last,
      (
        rest ++ one,
        grown' ∙ ap (λ rs. rest ++ rs) grown ∙ sym (append_assoc rest one (records q.files)),
        omega (arith, length-++ rest one, few, few', enqueues-cons r requests),
      ),
    )
