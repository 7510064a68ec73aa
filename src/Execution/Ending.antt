-- ===== src/Execution/Ending.antt =====
-- How `execute` of execution/executor.py ends.
use technical_test_mitus_ai.Prelude.{
  ℕ, ◌+◌, String, ◌≡◌, refl, sym, ap, ◌∙◌, Bool, true, false, Option, none, some, List, ◌++◌,
  Result, ok, err, if◌then◌else◌, Bool-cases, Result-cases, inl, inr,
}
use technical_test_mitus_ai.Contract.References.{ArtifactReference}
use technical_test_mitus_ai.Contract.Stage.{StageExecution}
use technical_test_mitus_ai.Contract.Run.{AnalysisRun, AnalysisRunStatus, is_terminal}
use technical_test_mitus_ai.Contract.Operations.{
  Operation, op_succeed, op_complete_partial, op_fail, op_cancel, call, target, status-call,
  call-Advances,
}
use technical_test_mitus_ai.Repository as Repository
use technical_test_mitus_ai.Repository.{updated_row}
use technical_test_mitus_ai.Repository.Tables.{Attempt, Database}
use technical_test_mitus_ai.Repository.Saves.{row_of, save-Saved}
use technical_test_mitus_ai.Repository.Immutability.{Lineage, Lineage-trans, perform_all-Lineage}
use technical_test_mitus_ai.Execution.Action.{
  Environment, World, Action, Exception, cancellation_observed, execution_failure, other_exception,
  pure, lift, ◌>>=◌, ◌>>◌, interleave, saved_in, utc_now, load, save,
}
use technical_test_mitus_ai.Execution.Pipeline.{Payloads, AnalysisExecutor}
use technical_test_mitus_ai.Execution.Publication.{
  forces_partial, stop_last, partial_reason, finish_run, publish,
}
use technical_test_mitus_ai.Execution.Executor.{
  active_index, replace_if, cancel_active, on_cancellation, fail_active, fail_run, on_failure,
  on_exception, failure_code, failure_message,
}
use technical_test_mitus_ai.Execution.Triple.{
  Triple, Holds, Triple-bind, Triple-then, Triple-lift, Triple-weaken, Triple-assume, Keeps,
  keeps_rules,
}
use technical_test_mitus_ai.Execution.Keeps.{Closed, On, interleave-On, utc_now-Keeps, after_save}
use technical_test_mitus_ai.Execution.Rounds.{
  port_rules, write_payloads-Keeps, write_aliases-Keeps, verify_all-Keeps,
}

-- The attempt of `k` descends from `a`.
abbrev pub Descends : String → Attempt → Database → Type 0
Descends k a db = (b : Attempt) × (row_of k db ≡ some b) × Lineage a b

pub Descends-Closed : (k : String) (a : Attempt) → Closed (Descends k a)
Descends-Closed k a calls db (b, stored, l) =
    let (c, stored', l') = perform_all-Lineage calls k db b l.projected stored in
    (c, stored', Lineage-trans l l')

pub load_row :
    (k : String) (db : Database) (b : Attempt)
    → row_of k db ≡ some b
    → Repository.load k db ≡ ok b.manifest
unfolding Repository.load
load_row k db b stored = rw stored

-- Both ways to finish keep the run's id and end it.
pub finish_run-final :
    (current : AnalysisRun) (artifacts : List ArtifactReference) (now : ℕ) {run : AnalysisRun}
    → finish_run current artifacts now ≡ ok run
    → (run.run_id ≡ current.run_id) × (is_terminal run.status ≡ true)
unfolding finish_run call
finish_run-final current artifacts now h = elim (Bool-cases (forces_partial current)) [
  | inr whole ↦
      let op = op_succeed artifacts none now current.stages in
      let made = rw whole at h in
      ((call-Advances op current made).run_id, ap is_terminal (status-call op current made))
  | inl part ↦ elim (Result-cases (stop_last current.stages)) [
    | inl (stages, stopped) ↦
        let op = op_complete_partial artifacts partial_reason none now stages in
        let made = rw (part, stopped) at h in
        ((call-Advances op current made).run_id, ap is_terminal (status-call op current made))
    | inr (e, failed) ↦ cc (rw (part, failed) at h)
  ]
]

attempt_inj : {a b : Attempt} → some a ≡ some b → a ≡ b
attempt_inj h = cc

-- The attempt of `k` descends from `a`, and is stored in the final state `s`.
abbrev pub Settled : String → Attempt → AnalysisRunStatus → World → Type 0
Settled k a s w =
    (b : Attempt) × (row_of k w.db ≡ some b)
    × Lineage a b
    × (b.manifest.status ≡ s)
    × (is_terminal s ≡ true)

module _ (k : String) (a : Attempt) (named : a.manifest.run_id ≡ k) (env : Environment) where
  abbrev pub Intact : World → Type 0
  Intact = On (Descends k a)

  abbrev pub Stored : AnalysisRun → World → Type 0
  Stored run w = (b : Attempt) × (row_of k w.db ≡ some b) × Lineage a b × (b.manifest ≡ run)

  abbrev pub Ends : Action AnalysisRunStatus → Type 0
  Ends m = Triple Intact m (Settled k a) Intact

  pub load-Stored : Triple Intact (load env k) Stored Intact
  unfolding load
  load-Stored = record {
    at = λ w h.
        let (b, stored, l) = interleave-On (Descends k a) (Descends-Closed k a) env w h in
        rw (load_row k (interleave env w).db b stored) (b, stored, l, refl);
  }

  pub Stored-named : (run : AnalysisRun) (w : World) → Stored run w → Intact w × (run.run_id ≡ k)
  Stored-named run w (b, stored, l, e) =
      ((b, stored, l), ap (λ (r : AnalysisRun). r.run_id) (sym e) ∙ (sym l.identity.run_id ∙ named))

  saved_in-Stored :
      (run : AnalysisRun) (now : ℕ) (w : World) (r : Result Database)
      → run.run_id ≡ k
      → Repository.save run none now w.db ≡ r
      → Intact w
      → Holds (λ done. Stored run) Intact (saved_in w r).0 (saved_in w r).1
  saved_in-Stored run now w (ok db) mine e h =
      let (b, stored, l) =
        after_save (Descends k a) (Descends-Closed k a) env run now w (ok db) e h in
      let s = save-Saved run none now w.db e in
      let same = attempt_inj (sym stored ∙ (ap (λ j. row_of j db) (sym mine) ∙ s.written)) in
      (b, stored, l, ap (λ (c : Attempt). c.manifest) same)
  saved_in-Stored run now w (err refusal) mine e h = h

  pub save-Stored :
      (run : AnalysisRun)
      → run.run_id ≡ k
      → Triple Intact (save env run) (λ done. Stored run) Intact
  unfolding save utc_now
  save-Stored run mine = record {
    at = λ w h.
        let w' = interleave env w in
        saved_in-Stored run (env.clock w.readings) (record w' { readings = w'.readings + 1 }) _ mine
          refl (interleave-On (Descends k a) (Descends-Closed k a) env w h);
  }

  -- The last two steps of every branch that finishes the run
  save_and_end :
      (run : AnalysisRun) (s : AnalysisRunStatus)
      → run.run_id ≡ k
      → run.status ≡ s
      → is_terminal s ≡ true
      → Ends (save env run >> pure s)
  unfolding pure
  save_and_end run s mine final ended =
      Triple-bind (λ done. Stored run) _ _ (save-Stored run mine)
        λ done. record {
          at = λ w (b, stored, l, e).
              (b, stored, l, ap (λ (r : AnalysisRun). r.status) e ∙ final, ended);
        }

  -- The same after a lifecycle method that ends the run
  pub call_and_end :
      (op : Operation) (current : AnalysisRun) (s : AnalysisRunStatus)
      → current.run_id ≡ k
      → target op current.status ≡ s
      → is_terminal s ≡ true
      → Ends (do run ← lift (call op current); save env run; pure s)
  call_and_end op current s mine aim ended =
      Triple-lift (Settled k a) (call op current) _ λ run made.
        save_and_end run s ((call-Advances op current made).run_id ∙ mine)
          (status-call op current made ∙ aim) ended

  from_load :
      (f : AnalysisRun → Action AnalysisRunStatus)
      → ((run : AnalysisRun) → run.run_id ≡ k → Ends (f run))
      → Ends (load env k >>= f)
  from_load f ends = Triple-bind Stored (load env k) f load-Stored λ run.
      Triple-weaken (Settled k a) (f run) (Stored-named run)
        (Triple-assume _ (Settled k a) (f run) (ends run))

  -- A final state that is there already is returned.
  end_at_once :
      (run : AnalysisRun)
      → is_terminal run.status ≡ true
      → Triple (Stored run) (pure run.status) (Settled k a) Intact
  unfolding pure
  end_at_once run ended = record {
    at = λ w (b, stored, l, e). (b, stored, l, ap (λ (r : AnalysisRun). r.status) e, ended);
  }

  pub end_or :
      (f : AnalysisRun → Action AnalysisRunStatus)
      → ((run : AnalysisRun) → run.run_id ≡ k → Ends (f run))
      → Ends (do run ← load env k; if is_terminal run.status then pure run.status else f run)
  end_or f ends = Triple-bind Stored (load env k) _ load-Stored λ run.
      elim (Bool-cases (is_terminal run.status)) [
        | inl ended ↦ rw ended (end_at_once run ended)
        | inr active ↦ rw active (
            Triple-weaken (Settled k a) (f run) (Stored-named run)
              (Triple-assume _ (Settled k a) (f run) (ends run)))
      ]

  replace_if-Keeps :
      (due : Bool) (index : ℕ) (stage : ℕ → StageExecution) (stages : List StageExecution)
      → Keeps Intact (replace_if env due index stage stages)
  replace_if-Keeps false index stage stages = search keeps_rules
  replace_if-Keeps true index stage stages = search (port_rules, Descends-Closed k a)

  cancel_active-Keeps :
      (active : Option ℕ) (stages : List StageExecution)
      → Keeps Intact (cancel_active env active stages)
  cancel_active-Keeps none stages = search keeps_rules
  cancel_active-Keeps (some index) stages = search (keeps_rules, replace_if-Keeps)

  fail_active-Keeps :
      (code message : String) (active : Option ℕ) (stages : List StageExecution)
      → Keeps Intact (fail_active env code message active stages)
  fail_active-Keeps code message none stages = search keeps_rules
  fail_active-Keeps code message (some index) stages =
      search (port_rules, Descends-Closed k a, replace_if-Keeps) depth 20

  active_index-Keeps : Keeps Intact active_index
  active_index-Keeps = record { at = λ w h. h }

  pub now-Keeps : Keeps Intact (utc_now env)
  now-Keeps = utc_now-Keeps (Descends k a) (Descends-Closed k a) env

  on_cancellation-Ends : Ends (on_cancellation env k)
  unfolding on_cancellation call
  on_cancellation-Ends = from_load _ λ current mine.
      Triple-then (Settled k a) _ _ active_index-Keeps λ active.
        Triple-then (Settled k a) _ _ (cancel_active-Keeps active current.stages) λ stages.
          Triple-then (Settled k a) _ _ now-Keeps λ now.
            call_and_end (op_cancel none now (some "Cancellation requested by user.") (some stages))
              current AnalysisRunStatus.cancelled mine refl refl

  fail_run-Ends :
      (current : AnalysisRun) (code message : String)
      → current.run_id ≡ k
      → Ends (fail_run env current code message)
  unfolding call
  fail_run-Ends current code message mine =
      Triple-then (Settled k a) _ _ active_index-Keeps λ active.
        Triple-then (Settled k a) _ _ (fail_active-Keeps code message active current.stages)
          λ stages. Triple-then (Settled k a) _ _ now-Keeps λ now.
            Triple-lift (Settled k a) _ _ λ failure made.
              Triple-then (Settled k a) _ _ now-Keeps λ at.
                call_and_end (op_fail failure none at (some stages.0)) current
                  AnalysisRunStatus.failed mine refl refl

  on_failure-Ends : (exc : Exception) → Ends (on_failure env k exc)
  unfolding on_failure
  on_failure-Ends exc =
      end_or (λ current. fail_run env current (failure_code exc) (failure_message exc))
        λ current mine. fail_run-Ends current (failure_code exc) (failure_message exc) mine

  pub on_exception-Ends : (exc : Exception) → Ends (on_exception env k exc)
  on_exception-Ends cancellation_observed = on_cancellation-Ends
  on_exception-Ends (execution_failure code message) =
      on_failure-Ends (execution_failure code message)
  on_exception-Ends (other_exception e) = on_failure-Ends (other_exception e)

  module _ (executor : AnalysisExecutor) where
    pub publish-Ends :
        (run_id : String) (payloads : Payloads) → Ends (publish env executor run_id k payloads)
    unfolding publish
    publish-Ends run_id payloads =
        let D = Descends k a in
        let closed = Descends-Closed k a in
        Triple-then (Settled k a) _ _ (write_payloads-Keeps D closed env executor run_id payloads)
          λ references.
            Triple-then (Settled k a) _ _
              (write_aliases-Keeps D closed env executor run_id payloads)
              λ aliases.
                Triple-then (Settled k a) _ _
                  (verify_all-Keeps D closed env run_id (references ++ aliases))
                  λ done. from_load _ λ current mine. Triple-then (Settled k a) _ _ now-Keeps λ now.
                    Triple-lift (Settled k a) _ _ λ run made.
                      let (same, ended) =
                        finish_run-final current (references ++ aliases) now made in
                      save_and_end run run.status (same ∙ mine) refl ended
