-- ===== src/Repository/Lookup.antt =====
-- Reading a row of `analysis_attempts` behind an INSERT or an UPDATE.
use technical_test_mitus_ai.Prelude.{
  String, ◌≡◌, ◌≢◌, refl, false, none, some, List, [], ◌∷◌, ◌++◌, ◌==◌, string_eq, if◌then◌else◌,
  arith, text_eq_iff, any,
}
use technical_test_mitus_ai.Repository.Tables.{Attempt, find_attempt, update_attempt, collides}

-- The row that is found has the key.
pub find_attempt-key :
    (k : String) (rows : List Attempt) {a : Attempt} → find_attempt k rows ≡ some a → a.run_id ≡ k
unfolding find_attempt
find_attempt-key k [] h = cc
find_attempt-key k (r ∷ rows) {a} h =
    ground (arith, text_eq_iff r.run_id k, find_attempt-key k rows {a = a})

pub find-update_self :
    (k : String) (f : Attempt → Attempt) (rows : List Attempt) {a : Attempt}
    → ((b : Attempt) → b.run_id ≡ k → (f b).run_id ≡ k)
    → find_attempt k rows ≡ some a
    → find_attempt k (update_attempt k f rows) ≡ some (f a)
unfolding find_attempt update_attempt
find-update_self k f [] keep h = cc
find-update_self k f (r ∷ rows) {a} keep h = ground (
  arith,
  text_eq_iff r.run_id k,
  text_eq_iff (f r).run_id k,
  keep r,
  find-update_self k f rows {a = a} keep,
)

pub find-update_ne :
    (k j : String) (f : Attempt → Attempt) (rows : List Attempt)
    → ((b : Attempt) → b.run_id ≡ k → (f b).run_id ≡ k)
    → k ≢ j
    → find_attempt j (update_attempt k f rows) ≡ find_attempt j rows
unfolding find_attempt update_attempt
find-update_ne k j f [] keep h = refl
find-update_ne k j f (r ∷ rows) keep h = ground (
  arith,
  text_eq_iff r.run_id k,
  text_eq_iff r.run_id j,
  text_eq_iff (f r).run_id j,
  keep r,
  find-update_ne k j f rows keep h,
)

-- An insertion at the end hides no row.
pub find-append_some :
    (k : String) (rows : List Attempt) (b : Attempt) {a : Attempt}
    → find_attempt k rows ≡ some a
    → find_attempt k (rows ++ b ∷ []) ≡ some a
unfolding find_attempt
find-append_some k [] b h = cc
find-append_some k (r ∷ rows) b {a} h = ground (arith, find-append_some k rows b {a = a})

pub find-append_none :
    (k : String) (rows : List Attempt) (b : Attempt)
    → find_attempt k rows ≡ none
    → find_attempt k (rows ++ b ∷ []) ≡ (if b.run_id == k then some b else none)
unfolding find_attempt
find-append_none k [] b h = refl
find-append_none k (r ∷ rows) b h = ground (arith, find-append_none k rows b)

-- A new row that meets the constraints has a new key.
pub find-none_of_any :
    (b : Attempt) (rows : List Attempt)
    → any (collides b) rows ≡ false
    → find_attempt b.run_id rows ≡ none
unfolding find_attempt any
find-none_of_any b [] h = refl
find-none_of_any b (r ∷ rows) h = ground (arith, find-none_of_any b rows)
