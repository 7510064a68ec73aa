-- ===== src/Repository/History.antt =====
-- What no sequence of repository calls can do to a stored attempt.
use technical_test_mitus_ai.Prelude.{
  ℕ, ◌+◌, String, ◌≡◌, ◌≢◌, refl, sym, ◌∙◌, ap, true, false, Option, some, List, [], ◌∷◌, arith,
  Result, ok, err, >>-eq-ok, >>=-eq-ok, ◌==◌, string_eq, inl, inr, forbid, is_some, text_eq_iff,
  Bool-cases, run_already_exists, ok-injective,
}
use technical_test_mitus_ai.Contract.Json.{Fields}
use technical_test_mitus_ai.Contract.Run.{AnalysisRun, AnalysisRunStatus, is_terminal}
use technical_test_mitus_ai.Contract.Operations.{Move}
use technical_test_mitus_ai.Contract.Transitions.{RetryArguments, retry_from}
use technical_test_mitus_ai.Lifecycle.{same_provenance, ensure_creatable}
use technical_test_mitus_ai.Repository.{
  write_flag, set_flag, create_detail, retry_detail, create, save, request_cancellation,
  create_retry_attempt, attempt_row, updated_row, found, insert_logical, record_attempt,
  replace_projections, append_audit,
}
use technical_test_mitus_ai.Repository.Tables.{
  Attempt, Database, EventType, attempt_created, attempt_retried, insert_attempt, parse_status,
  status_value, parse_status-status_value,
}
use technical_test_mitus_ai.Repository.Lookup.{find-update_self, find-update_ne, find-append_some}
use technical_test_mitus_ai.Repository.Saves.{row_of, save-Saved, found-ok}

-- A call of a method that writes, with the clock and the fresh identifier that it reads.
pub data Call : Type 0 where
  call_create : AnalysisRun → (now : ℕ) → Call
  call_save : AnalysisRun → (expected_version : Option ℕ) (now : ℕ) → Call
  call_request_cancellation : String → Call
  call_create_retry_attempt : String → RetryArguments → (fresh : String) (now : ℕ) → Call

-- A transaction that raises is rolled back.
abbrev pub commit : Database → Result Database → Database
commit db (ok after) = after
commit db (err e) = db

abbrev pub commit_with : {A : Type 0} → Database → Result (A × Database) → Database
commit_with db (ok (a, after)) = after
commit_with db (err e) = db

unfoldable pub perform : Call → Database → Database
perform (call_create run now) db = commit_with db (create run now db)
perform (call_save run expected_version now) db = commit db (save run expected_version now db)
perform (call_request_cancellation run_id) db = commit db (request_cancellation run_id db)
perform (call_create_retry_attempt run_id a fresh now) db =
    commit_with db (create_retry_attempt run_id a fresh now db)

unfoldable pub perform_all : List Call → Database → Database
unfolding perform
perform_all [] db = db
perform_all (c ∷ calls) db = perform_all calls (perform c db)

-- The scalar status column is that of the manifest.
abbrev pub IsProjected : Attempt → Type 0
IsProjected a = a.status ≡ status_value a.manifest.status

-- What one call may do to a stored attempt.
pub data Evolves (a b : Attempt) : Type 0 where
  unchanged : b ≡ a → Evolves a b
  saved :
      (run : AnalysisRun)
      → Move a.manifest.status run.status
      → same_provenance a.manifest run ≡ true
      → b ≡ updated_row run (a.version + 1) a
      → Evolves a b
  flagged :
      is_terminal a.manifest.status ≡ false → b ≡ record a { cancel_requested = true } → Evolves a b

-- The attempt of `k` is still there, and has evolved.
abbrev pub Kept : Attempt → String → Database → Type 0
Kept a k db = (b : Attempt) × (row_of k db ≡ some b) × Evolves a b

inserted-row :
    (new : Attempt) (db : Database) (k : String) {a : Attempt} {db' : Database}
    → row_of k db ≡ some a
    → insert_attempt new db ≡ ok db'
    → row_of k db' ≡ some a
unfolding insert_attempt
inserted-row new db k {a} h e =
    ground (arith, find-append_some k db.analysis_attempts new {a = a} h)

recorded-row :
    (run : AnalysisRun) (event : EventType) (detail : Fields) (now : ℕ) (db : Database) (k : String)
    → row_of k (record_attempt run event detail now db) ≡ row_of k db
unfolding append_audit replace_projections
recorded-row run event detail now db k = refl

logical-row :
    (run : AnalysisRun) (db : Database) (k : String)
    → row_of k (insert_logical run db) ≡ row_of k db
logical-row run db k = ground arith

some_inj : {a b : Attempt} → some a ≡ some b → a ≡ b
some_inj h = cc

module _ (k : String) (db : Database) {a : Attempt} (h : row_of k db ≡ some a) where
  pub create-row :
      (run : AnalysisRun) (now : ℕ) {out : String × Database}
      → create run now db ≡ ok out
      → row_of k out.1 ≡ some a
  unfolding create
  create-row run now e =
      let db1 = insert_logical run db in
      let (_, e1) = >>-eq-ok (ensure_creatable run) _ e in
      let (_, e2) = >>-eq-ok (forbid (is_some (row_of run.run_id db1)) run_already_exists) _ e1 in
      let (db2, inserted, e3) = >>=-eq-ok (insert_attempt (attempt_row run 1) db1) _ e2 in
      let before = logical-row run db k ∙ h in
      let kept = inserted-row (attempt_row run 1) db1 k before inserted in
      ap (λ (o : String × Database). row_of k o.1) (sym (ok-injective e3))
      ∙ recorded-row run attempt_created (create_detail run) now db2 k
      ∙ kept

  pub retry-row :
      (previous : String) (args : RetryArguments) (fresh : String) (now : ℕ)
      {out : AnalysisRun × Database}
      → create_retry_attempt previous args fresh now db ≡ ok out
      → row_of k out.1 ≡ some a
  unfolding create_retry_attempt
  retry-row previous args fresh now e =
      let (row, _, e1) = >>=-eq-ok (found (row_of previous db)) _ e in
      let (retry, _, e2) = >>=-eq-ok (retry_from row.manifest args fresh now) _ e1 in
      let (db2, inserted, e3) = >>=-eq-ok (insert_attempt (attempt_row retry 1) db) _ e2 in
      let kept = inserted-row (attempt_row retry 1) db k h inserted in
      ap (λ (o : AnalysisRun × Database). row_of k o.1) (sym (ok-injective e3))
      ∙ recorded-row retry attempt_retried (retry_detail retry) now db2 k
      ∙ kept

  pub save-Evolves :
      (run : AnalysisRun) (expected : Option ℕ) (now : ℕ) {after : Database}
      → save run expected now db ≡ ok after
      → Kept a k after
  save-Evolves run expected now {after} e =
      let s = save-Saved run expected now db e in
      elim (Bool-cases (run.run_id == k)) [
        | inl same ↦
            let key = (text_eq_iff run.run_id k).0 same in
            let mine : s.before ≡ a = some_inj (sym s.stored ∙ (ap (λ j. row_of j db) key ∙ h)) in
            (
              updated_row run (s.before.version + 1) s.before,
              ap (λ j. row_of j after) (sym key) ∙ s.written,
              rw (← mine) (saved run s.moved s.provenance refl),
            )
        | inr other ↦ (
          a,
          s.others k (λ key. cc (other, (text_eq_iff run.run_id k).1 key)) ∙ h,
          unchanged refl,
        )
      ]

  flag_self :
      (status : AnalysisRunStatus) → status ≡ a.manifest.status → Kept a k (write_flag k status db)
  unfolding write_flag
  flag_self status e = elim (Bool-cases (is_terminal status)) [
    | inl done ↦ rw done (a, h, unchanged refl)
    | inr active ↦ rw active (
      set_flag a,
      find-update_self k set_flag db.analysis_attempts (λ b key. key) h,
      flagged (rw e at active) refl,
    )
  ]

  flag_ne :
      (run_id : String) (status : AnalysisRunStatus)
      → run_id ≢ k
      → row_of k (write_flag run_id status db) ≡ some a
  unfolding write_flag
  flag_ne run_id status other =
      ground (arith, find-update_ne run_id k set_flag db.analysis_attempts (λ b key. key) other)

  pub cancel-Evolves :
      (run_id : String) {after : Database}
      → IsProjected a
      → request_cancellation run_id db ≡ ok after
      → Kept a k after
  unfolding request_cancellation
  cancel-Evolves run_id p e =
      let (row, f, e1) = >>=-eq-ok (found (row_of run_id db)) _ e in
      let (status, parsed, e2) = >>=-eq-ok (parse_status row.status) _ e1 in
      elim (Bool-cases (run_id == k)) [
        | inl same ↦
            let key = (text_eq_iff run_id k).0 same in
            let mine : row ≡ a =
              some_inj (sym (found-ok (row_of run_id db) f) ∙ (ap (λ j. row_of j db) key ∙ h)) in
            let read : status ≡ a.manifest.status = ok-injective (
              sym parsed
              ∙ (ap (λ (r : Attempt). parse_status r.status) mine
                  ∙ (ap parse_status p ∙ parse_status-status_value a.manifest.status))) in
            rw (← ok-injective e2, key) (flag_self status read)
        | inr other ↦ (
          a,
          rw (← ok-injective e2)
              (flag_ne run_id status (λ key. cc (other, (text_eq_iff run_id k).1 key))),
          unchanged refl,
        )
      ]
