-- ===== src/Repository/Locking.antt =====
-- The optimistic lock of v2/src/footballai_v2/storage/postgres/repository.py: `save` with an expected
-- version.
use technical_test_mitus_ai.Prelude.{
  ℕ, ◌+◌, ◌≡◌, refl, ap, ◌∙◌, true, false, some, nat_eq, concurrency_conflict, ok, err, arith,
}
use technical_test_mitus_ai.Contract.Run.{AnalysisRun}
use technical_test_mitus_ai.Repository.{save, updated_row, stale}
use technical_test_mitus_ai.Repository.Tables.{Attempt, Database}
use technical_test_mitus_ai.Repository.Saves.{row_of, Saved, save-Saved}

stale_after : (v stored : ℕ) → stale (some v) stored ≡ false → stale (some v) (stored + 1) ≡ true
stale_after v stored fresh = ground arith

save-stale :
    (run : AnalysisRun) (v now : ℕ) (db : Database) (row : Attempt)
    → row_of run.run_id db ≡ some row
    → stale (some v) row.version ≡ true
    → save run (some v) now db ≡ err concurrency_conflict
unfolding save
save-stale run v now db row stored old = rw stored (rw old refl)

-- Of two saves of one attempt that expect the same version, the second is refused with a
-- ConcurrencyConflictError once the first has been accepted, whatever it would write.
pub save-conflict :
    (run other : AnalysisRun) (v now later : ℕ) (db db' : Database)
    → other.run_id ≡ run.run_id
    → save run (some v) now db ≡ ok db'
    → save other (some v) later db' ≡ err concurrency_conflict
save-conflict run other v now later db db' same h =
    let saved : Saved run (some v) db db' = save-Saved run (some v) now db h in
    save-stale other v later db' (updated_row run (saved.before.version + 1) saved.before)
      (ap (λ k. row_of k db') same ∙ saved.written) (stale_after v saved.before.version saved.fresh)
