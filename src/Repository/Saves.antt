-- ===== src/Repository/Saves.antt =====
-- `save` on each of its branches.
use technical_test_mitus_ai.Prelude.{
  ℕ, ◌+◌, String, ◌≡◌, ◌≢◌, refl, true, false, Option, none, some, concurrency_conflict, ok, ◌>>◌,
  >>-eq-ok, >>=-eq-ok, forbid, forbid-ok, nat_eq,
}
use technical_test_mitus_ai.Contract.Run.{AnalysisRun}
use technical_test_mitus_ai.Contract.Operations.{Move}
use technical_test_mitus_ai.Lifecycle.{ensure_transition_allowed, same_provenance}
use technical_test_mitus_ai.Lifecycle.Rules.{allowed_iff}
use technical_test_mitus_ai.Repository.{save, updated_row, write_attempt, found, stale}
use technical_test_mitus_ai.Repository.Tables.{Attempt, Database, find_attempt}
use technical_test_mitus_ai.Repository.Lookup.{find-update_self, find-update_ne}

abbrev pub row_of : String → Database → Option Attempt
row_of k db = find_attempt k db.analysis_attempts

-- What a successful `save` has checked and written.
pub record Saved (run : AnalysisRun) (expected : Option ℕ) (db db' : Database) : Type 0 where
  pub before : Attempt
  pub stored : row_of run.run_id db ≡ some before
  pub fresh : stale expected before.version ≡ false
  pub moved : Move before.manifest.status run.status
  pub provenance : same_provenance before.manifest run ≡ true
  pub written : row_of run.run_id db' ≡ some (updated_row run (before.version + 1) before)
  pub others : (k : String) → run.run_id ≢ k → row_of k db' ≡ row_of k db

pub found-ok : (o : Option Attempt) {a : Attempt} → found o ≡ ok a → o ≡ some a
found-ok none h = cc
found-ok (some b) h = cc

module _ (run : AnalysisRun) (version now : ℕ) (db : Database) where
  keeps_key :
      (b : Attempt) → b.run_id ≡ run.run_id → (updated_row run version b).run_id ≡ run.run_id
  keeps_key b e = refl

  row-write_self :
      {a : Attempt}
      → row_of run.run_id db ≡ some a
      → row_of run.run_id (write_attempt run version now db) ≡ some (updated_row run version a)
  unfolding write_attempt
  row-write_self h =
      find-update_self run.run_id (updated_row run version) db.analysis_attempts keeps_key h

  row-write_ne :
      (k : String) → run.run_id ≢ k → row_of k (write_attempt run version now db) ≡ row_of k db
  unfolding write_attempt
  row-write_ne k other =
      find-update_ne run.run_id k (updated_row run version) db.analysis_attempts keeps_key other

module _ (run : AnalysisRun) (expected : Option ℕ) (now : ℕ) (db : Database) where
  checks :
      (before : Attempt) {db' : Database}
      → (do
        forbid (stale expected before.version) concurrency_conflict
        ensure_transition_allowed before.manifest run
        ok (write_attempt run (before.version + 1) now db))
        ≡ ok db'
      → (stale expected before.version ≡ false)
        × Move before.manifest.status run.status
        × (same_provenance before.manifest run ≡ true)
        × (db' ≡ write_attempt run (before.version + 1) now db)
  checks before h =
      let (fresh, h1) =
        >>-eq-ok (forbid (stale expected before.version) concurrency_conflict) _ h in
      let (allowed, h2) = >>-eq-ok (ensure_transition_allowed before.manifest run) _ h1 in
      let (moved, same) = (allowed_iff before.manifest run).0 allowed in
      (forbid-ok _ _ fresh, moved, same, cc)

  -- A `save` that returns found the attempt at the expected version and non-terminal, moved it along
  -- the lifecycle with the same provenance, wrote the run at the next version with the cancellation
  -- flag kept, and changed no other attempt.
  pub save-Saved : {db' : Database} → save run expected now db ≡ ok db' → Saved run expected db db'
  unfolding save
  save-Saved h =
      let (before, f, rest) = >>=-eq-ok (found (row_of run.run_id db)) _ h in
      let (fresh, moved, same, e) = checks before rest in
      let stored = found-ok (row_of run.run_id db) f in
      record {
        before = before;
        stored = stored;
        fresh = fresh;
        moved = moved;
        provenance = same;
        written = rw e (row-write_self run (before.version + 1) now db stored);
        others = λ k other. rw e (row-write_ne run (before.version + 1) now db k other);
      }
