-- ===== src/Uploads/Repeats.antt =====
-- A repeated `finalize` of v2/src/footballai_v2/storage/upload_service.py.
use Prim.Native.String as Native
use technical_test_mitus_ai.Prelude.{
  ℕ, String, ◌≡◌, refl, sym, ap, ◌∙◌, inl, inr, Bool, true, false, some, is_empty, codes,
  if◌then◌else◌, Bool-cases, ok, err, >>-eq-ok, >>=-eq-ok, ok-injective, run_already_exists,
}
use technical_test_mitus_ai.Contract.References.{input_reference}
use technical_test_mitus_ai.Contract.Run.{AnalysisRun, queued, validate_run, analysis_run}
use technical_test_mitus_ai.Contract.Transitions.{NewRun, new, text_or}
use technical_test_mitus_ai.Lifecycle.{ensure_creatable}
use technical_test_mitus_ai.Repository.{create, load, insert_logical}
use technical_test_mitus_ai.Repository.Tables.{Attempt, Database, has_logical}
use technical_test_mitus_ai.Repository.Saves.{row_of}
use technical_test_mitus_ai.Queue.Local.{Queue}
use technical_test_mitus_ai.Storage.Memory.{Objects}
use technical_test_mitus_ai.Storage.Inputs.{finalize_upload}
use technical_test_mitus_ai.Uploads.Characters.{text_of}
use technical_test_mitus_ai.Uploads.Service.{
  DirectUploadService, Finalization, video_content_types, new_run, prepare, admit, finalize,
}

analysis_run-ok : (r run : AnalysisRun) → analysis_run r ≡ ok run → r ≡ run
unfolding analysis_run
analysis_run-ok r run h = ok-injective (>>-eq-ok (validate_run r) (ok r) h).1

same_either_way : (s : String) (b : Bool) → (if b then s else s) ≡ s
same_either_way s true = refl
same_either_way s false = refl

new-fields :
    (a : NewRun) (fresh_logical run_id : String) (now : ℕ) (run : AnalysisRun)
    → a.run_id ≡ some run_id
    → new a fresh_logical run_id now ≡ ok run
    → (run.status ≡ queued) × (run.run_id ≡ run_id)
unfolding new
new-fields a fresh_logical run_id now run named h =
    let same = analysis_run-ok _ run h in
    (
      sym (ap AnalysisRun.status same),
      sym (ap AnalysisRun.run_id same)
          ∙ ap (λ o. text_or o run_id) named
          ∙ same_either_way run_id (is_empty (codes run_id)),
    )

prepare-fields :
    (service : DirectUploadService) (f : Finalization) (fresh_logical : String) (now : ℕ)
    (objects : Objects) (run : AnalysisRun)
    → prepare service f fresh_logical now objects ≡ ok run
    → (run.status ≡ queued) × (run.run_id ≡ f.run_id)
unfolding prepare
prepare-fields service f fresh_logical now objects run h =
    let (finalized, uploaded, h1) =
      >>=-eq-ok (finalize_upload f.run_id service.max_upload_bytes video_content_types objects) _
        h in
    let (input, referenced, h2) =
      >>=-eq-ok
        (input_reference (Native.◌++◌ "blob://" (text_of finalized.object_reference))
          finalized.sha256 finalized.content_type)
        _ h1 in
    new-fields (new_run service f input) fresh_logical f.run_id now run refl h2

insert_logical-attempts :
    (run : AnalysisRun) (db : Database)
    → (insert_logical run db).analysis_attempts ≡ db.analysis_attempts
insert_logical-attempts run db =
    elim (Bool-cases (has_logical run.logical_analysis_id db.logical_analyses)) [
      | inl known ↦ rw known refl
      | inr fresh ↦ rw fresh refl
    ]

create-repeated :
    (run : AnalysisRun) (now : ℕ) (db : Database) (row : Attempt)
    → run.status ≡ queued
    → row_of run.run_id db ≡ some row
    → create run now db ≡ err run_already_exists
unfolding create ensure_creatable
create-repeated run now db row fresh stored =
    rw (fresh, insert_logical-attempts run db, stored) refl

load-row :
    (run_id : String) (db : Database) (row : Attempt)
    → row_of run_id db ≡ some row
    → load run_id db ≡ ok row.manifest
unfolding load
load-row run_id db row stored = rw stored refl

-- Once the attempt is stored, a finalize of an upload that passes its checks returns the attempt that is
-- stored, creates nothing and enqueues no job.
pub finalize-repeated :
    (service : DirectUploadService) (f : Finalization) (fresh_logical fresh_job : String) (now : ℕ)
    (objects : Objects) (db : Database) (q : Queue) (run : AnalysisRun) (row : Attempt)
    → prepare service f fresh_logical now objects ≡ ok run
    → row_of f.run_id db ≡ some row
    → finalize service f fresh_logical fresh_job now objects db q ≡ (ok row.manifest, db, q)
unfolding finalize admit
finalize-repeated service f fresh_logical fresh_job now objects db q run row prepared stored =
    let (fresh, named) = prepare-fields service f fresh_logical now objects run prepared in
    let again = create-repeated run now db row fresh (ap (λ k. row_of k db) named ∙ stored) in
    rw (prepared, finalize) (rw (again, admit) (rw (load-row f.run_id db row stored) refl))
