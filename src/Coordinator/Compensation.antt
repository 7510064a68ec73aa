-- ===== src/Coordinator/Compensation.antt =====
-- What v2/src/footballai_v2/execution/coordinator.py leaves of an attempt whose delivery raises.
use technical_test_mitus_ai.Prelude.{
  ℕ, ◌≤◌, ◌+◌, String, ◌≡◌, ◌≢◌, refl, sym, ap, subst, ◌∙◌, true, any, none, some, List, [], ◌∷◌,
  ◌++◌, string_eq, text_eq_refl, ok, err, >>-eq-ok, >>=-eq-ok, ok-injective, Error, All, is_some,
  require, forbid, inl, inr, Bool-cases, arith,
}
use technical_test_mitus_ai.Contract.Json.Equality.{keyed_fields}
use technical_test_mitus_ai.Contract.References.{StructuredError}
use technical_test_mitus_ai.Contract.Stage as Stage
use technical_test_mitus_ai.Contract.Stage.{StageStatus, StageExecution}
use technical_test_mitus_ai.Contract.Run.{queued, failed, AnalysisRun, analysis_run}
use technical_test_mitus_ai.Contract.Run.Shape.{Shape}
use technical_test_mitus_ai.Contract.Run.Manifest.{IsManifest, validate_run_iff}
use technical_test_mitus_ai.Contract.Transitions.{fail, is_queued}
use technical_test_mitus_ai.Contract.Operations.{call, op_fail}
use technical_test_mitus_ai.Lifecycle.Rules.{call_allowed}
use technical_test_mitus_ai.Repository.{
  attempt_row, create, insert_logical, save, updated_row, write_attempt, append_audit,
  replace_projections,
}
use technical_test_mitus_ai.Repository.Tables.{
  Attempt, Database, insert_attempt, find_attempt, collides,
}
use technical_test_mitus_ai.Repository.Lookup.{find-append_none, find-none_of_any}
use technical_test_mitus_ai.Repository.Saves.{row_of, save-Saved}
use technical_test_mitus_ai.Coordinator.{Planes, Readings, copy_failure, compensate}

inserted-new :
    (new : Attempt) (db db' : Database)
    → insert_attempt new db ≡ ok db'
    → row_of new.run_id db' ≡ some new
unfolding insert_attempt
inserted-new new db db' h = elim (Bool-cases (any (collides new) db.analysis_attempts)) [
  | inl there ↦ cc (rw there at h)
  | inr free ↦
      let row : find_attempt new.run_id (db.analysis_attempts ++ new ∷ []) ≡ some new =
        find-append_none new.run_id db.analysis_attempts new
          (find-none_of_any new db.analysis_attempts free)
        ∙ rw (text_eq_refl new.run_id) refl in
      ground (arith, row)
]

-- A creation that returns has stored its run.
pub create-stored :
    (run : AnalysisRun) (now : ℕ) (db : Database) (out : String × Database)
    → create run now db ≡ ok out
    → row_of run.run_id out.1 ≡ some (attempt_row run 1)
unfolding create append_audit replace_projections
create-stored run now db out h =
    let db1 = insert_logical run db in
    let (_, h1) = >>-eq-ok (require (is_queued run.status) _) _ h in
    let (_, h2) = >>-eq-ok (forbid (is_some (row_of run.run_id db1)) _) _ h1 in
    let (db2, inserted, h3) = >>=-eq-ok (insert_attempt (attempt_row run 1) db1) _ h2 in
    ap (λ (o : String × Database). row_of run.run_id o.1) (sym (ok-injective h3))
    ∙ inserted-new (attempt_row run 1) db1 db2 inserted

not_running :
    (stages : List StageExecution)
    → All (λ s. Stage.is_queued s.status ≡ true) stages
    → All (λ s. s.status ≢ StageStatus.running) stages
not_running [] h = tt
not_running (s ∷ stages) h = ((λ e. cc (rw e at h.0)), not_running stages h.1)

-- What the coordinator knows of a run that it has created
pub record Fresh (run : AnalysisRun) : Type 0 where
  pub well_formed : IsManifest run
  pub waits : run.status ≡ queued
  pub keyed : keyed_fields run.parameters ≡ true

abbrev failed_run : AnalysisRun → StructuredError → ℕ → AnalysisRun
failed_run run e now = record run { status = failed; failure = some e; completed_at = some now }

failed-IsManifest :
    (run : AnalysisRun) (e : StructuredError) (now : ℕ)
    → Fresh run
    → run.created_at ≤ now
    → IsManifest (failed_run run e now)
failed-IsManifest run e now f late =
    let m = f.well_formed in
    let shape = subst (λ s. Shape s run) f.waits m.shape in
    record {
      version = m.version;
      logical = m.logical;
      run = m.run;
      attempt = m.attempt;
      chained = m.chained;
      not_own = m.not_own;
      pipeline = m.pipeline;
      parameters = m.parameters;
      started = m.started;
      completed = rw shape.0 late;
      partial_reason = m.partial_reason;
      cancellation_reason = m.cancellation_reason;
      model_names = m.model_names;
      artifact_ids = m.artifact_ids;
      artifact_names = m.artifact_names;
      artifact_paths = m.artifact_paths;
      stage_ids = m.stage_ids;
      stage_names = m.stage_names;
      links = m.links;
      shape = ((now, refl), (e, refl), shape.3, shape.4, shape.5, not_running run.stages shape.6);
    }

fail-ok :
    (run : AnalysisRun) (e : StructuredError) (now : ℕ)
    → Fresh run
    → run.created_at ≤ now
    → fail run e none now none ≡ ok (failed_run run e now)
unfolding fail analysis_run
fail-ok run e now f late =
    rw (f.waits, (validate_run_iff (failed_run run e now)).1 (failed-IsManifest run e now f late))
      refl

-- The failed attempt of a run
abbrev pub IsFailed : String → Database → Type 0
IsFailed k db = (row : Attempt) × (row_of k db ≡ some row) × (row.manifest.status ≡ failed)

save-IsFailed :
    (run : AnalysisRun) (e : StructuredError) (now saved : ℕ) (db : Database)
    → Fresh run
    → run.created_at ≤ now
    → row_of run.run_id db ≡ some (attempt_row run 1)
    → (after : Database) × (save (failed_run run e now) none saved db ≡ ok after)
      × IsFailed run.run_id after
unfolding save call
save-IsFailed run e now saved db f late stored =
    let allowed =
      call_allowed (op_fail e none now none) run (failed_run run e now) f.keyed
        (fail-ok run e now f late) in
    let after = write_attempt (failed_run run e now) 2 saved db in
    let returns : save (failed_run run e now) none saved db ≡ ok after =
      rw (stored, allowed) refl in
    let s = save-Saved (failed_run run e now) none saved db returns in
    (
      after,
      returns,
      (updated_row (failed_run run e now) (s.before.version + 1) s.before, s.written, refl),
    )

-- A compensation of a run that is stored as created keeps the exception and stores the run as failed.
pub compensate-IsFailed :
    (run : AnalysisRun) (c : Readings) (raised : Error) (p : Planes)
    → Fresh run
    → run.created_at ≤ c.failed_time
    → row_of run.run_id p.db ≡ some (attempt_row run 1)
    → ((compensate run c raised p).0 ≡ err raised)
      × IsFailed run.run_id (compensate run c raised p).1.db
unfolding compensate
compensate-IsFailed run c raised p f late stored =
    let (after, returns, failing) =
      save-IsFailed run (copy_failure c.error_time) c.failed_time c.saved_time p.db f late stored in
    rw (fail-ok run (copy_failure c.error_time) c.failed_time f late, returns) (refl, failing)
