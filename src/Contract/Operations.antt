-- ===== src/Contract/Operations.antt =====
-- The lifecycle methods of `AnalysisRun` as one family: what every one of them does alike.
use technical_test_mitus_ai.Prelude.{
  ℕ, String, ◌≡◌, refl, Bool, true, Option, List, arith, invalid_status_transition, Result, ok, err,
  >>-eq-ok, require, forbid, not, ◌||◌,
}
use technical_test_mitus_ai.Contract.References.{ArtifactReference, StructuredError}
use technical_test_mitus_ai.Contract.Stage.{StageExecution}
use technical_test_mitus_ai.Contract.Run.{
  AnalysisRunStatus, queued, running, succeeded, partial, failed, cancelled, is_terminal,
  AnalysisRun, validate_run, analysis_run,
}
use technical_test_mitus_ai.Contract.Run.Manifest.{IsManifest, validate_run_iff}
use technical_test_mitus_ai.Contract.Transitions.{
  start, with_stages, succeed, complete_partial, fail, cancel, is_queued, is_running,
}

-- A call of a method, with its arguments and the value of `utc_now()`.
pub data Operation : Type 0 where
  op_start : (at : Option ℕ) (now : ℕ) → Option (List StageExecution) → Operation
  op_with_stages : List StageExecution → Operation
  op_succeed : List ArtifactReference → (at : Option ℕ) (now : ℕ) → List StageExecution → Operation
  op_complete_partial :
      List ArtifactReference → String → (at : Option ℕ) (now : ℕ) → List StageExecution → Operation
  op_fail : StructuredError → (at : Option ℕ) (now : ℕ) → Option (List StageExecution) → Operation
  op_cancel : (at : Option ℕ) (now : ℕ) → Option String → Option (List StageExecution) → Operation

unfoldable pub call : Operation → AnalysisRun → Result AnalysisRun
unfolding start with_stages succeed complete_partial fail cancel
call (op_start at now stages) r = start r at now stages
call (op_with_stages stages) r = with_stages r stages
call (op_succeed artifacts at now stages) r = succeed r artifacts at now stages
call (op_complete_partial artifacts reason at now stages) r =
    complete_partial r artifacts reason at now stages
call (op_fail failure at now stages) r = fail r failure at now stages
call (op_cancel at now reason stages) r = cancel r at now reason stages

pub analysis_run-eq :
    (x : AnalysisRun) {y : AnalysisRun} → analysis_run x ≡ ok y → (validate_run x ≡ ok tt) × (y ≡ x)
unfolding analysis_run
analysis_run-eq x h = let (v, e) = >>-eq-ok (validate_run x) (ok x) h in (v, cc)

-- The message that each method raises on a finished attempt.
abbrev refusal : Operation → String
refusal (op_start _ _ _) = "cannot start run"
refusal (op_with_stages _) = "terminal attempts cannot update stage records"
refusal (op_succeed _ _ _ _) = "cannot succeed run"
refusal (op_complete_partial _ _ _ _ _) = "cannot complete partial run"
refusal (op_fail _ _ _ _) = "cannot fail run"
refusal (op_cancel _ _ _ _) = "cannot cancel run"

-- Every method of a finished attempt raises InvalidStatusTransition, whatever its arguments.
pub call-terminal :
    (op : Operation) (r : AnalysisRun)
    → is_terminal r.status ≡ true
    → call op r ≡ err (invalid_status_transition (refusal op))
unfolding call
call-terminal (op_with_stages _) r h = ground arith
call-terminal _ r h = ground arith

-- The status test of each method.
abbrev pub admits : Operation → AnalysisRunStatus → Bool
admits (op_start _ _ _) s = is_queued s
admits (op_with_stages _) s = not (is_terminal s)
admits (op_succeed _ _ _ _) s = is_running s
admits (op_complete_partial _ _ _ _ _) s = is_running s
admits (op_fail _ _ _ _) s = is_queued s || is_running s
admits (op_cancel _ _ _ _) s = is_queued s || is_running s

-- What a method may change: the fields of the provenance stay, and the status moves on.
pub record Advances (a b : AnalysisRun) : Type 0 where
  pub contract_version : b.contract_version ≡ a.contract_version
  pub logical_analysis_id : b.logical_analysis_id ≡ a.logical_analysis_id
  pub run_id : b.run_id ≡ a.run_id
  pub attempt_number : b.attempt_number ≡ a.attempt_number
  pub previous_attempt_run_id : b.previous_attempt_run_id ≡ a.previous_attempt_run_id
  pub data_origin : b.data_origin ≡ a.data_origin
  pub input : b.input ≡ a.input
  pub code : b.code ≡ a.code
  pub pipeline_version : b.pipeline_version ≡ a.pipeline_version
  pub parameters : b.parameters ≡ a.parameters
  pub models : b.models ≡ a.models
  pub created_at : b.created_at ≡ a.created_at

-- The moves of the lifecycle.
pub data Move : AnalysisRunStatus → AnalysisRunStatus → Type 0 where
  stay_queued : Move queued queued
  begin : Move queued running
  fail_early : Move queued failed
  cancel_early : Move queued cancelled
  stay_running : Move running running
  finish : Move running succeeded
  stop_partial : Move running partial
  fail_late : Move running failed
  cancel_late : Move running cancelled

pub ruleset moves = (
  stay_queued, begin, fail_early, cancel_early, stay_running, finish, stop_partial, fail_late,
  cancel_late,
)

-- Every method is a guard in front of the constructor.
data Checked (r : AnalysisRun) (status : AnalysisRunStatus) (r' : AnalysisRun) : Type 0 where
  checked :
      (x : AnalysisRun)
      → Advances r x
      → x.status ≡ status
      → validate_run x ≡ ok tt
      → r' ≡ x
      → Checked r status r'

abbrev patch :
    AnalysisRun
    → AnalysisRunStatus
    → List ArtifactReference
    → List StageExecution
    → (started completed : Option ℕ) → Option StructuredError
    → (partial_reason cancellation_reason : Option String) → AnalysisRun
patch r status artifacts stages started completed failure partial_reason cancellation_reason =
    record r {
      status = status;
      artifacts = artifacts;
      stages = stages;
      started_at = started;
      completed_at = completed;
      failure = failure;
      partial_reason = partial_reason;
      cancellation_reason = cancellation_reason;
    }

module _ (r : AnalysisRun) (s : AnalysisRunStatus) (a : List ArtifactReference)
    (stages : List StageExecution) (b c : Option ℕ) (f : Option StructuredError)
    (p q : Option String) where
  patch-Advances : Advances r (patch r s a stages b c f p q)
  patch-Advances = record {
    contract_version = refl;
    logical_analysis_id = refl;
    run_id = refl;
    attempt_number = refl;
    previous_attempt_run_id = refl;
    data_origin = refl;
    input = refl;
    code = refl;
    pipeline_version = refl;
    parameters = refl;
    models = refl;
    created_at = refl;
  }

  patch-Checked :
      {r' : AnalysisRun} → analysis_run (patch r s a stages b c f p q) ≡ ok r' → Checked r s r'
  patch-Checked h =
      let (v, e) = analysis_run-eq (patch r s a stages b c f p q) h in
      checked _ patch-Advances refl v e

-- The status after a method.
abbrev pub target : Operation → AnalysisRunStatus → AnalysisRunStatus
target (op_start _ _ _) s = running
target (op_with_stages _) s = s
target (op_succeed _ _ _ _) s = succeeded
target (op_complete_partial _ _ _ _ _) s = partial
target (op_fail _ _ _ _) s = failed
target (op_cancel _ _ _ _) s = cancelled

call-Checked :
    (op : Operation) (r : AnalysisRun) {r' : AnalysisRun}
    → call op r ≡ ok r'
    → Checked r (target op r.status) r'
unfolding call
call-Checked (op_start at now stages) r h =
    patch-Checked r running _ _ _ _ _ _ _ (>>-eq-ok (require (is_queued r.status) _) _ h).1
call-Checked (op_with_stages stages) r h =
    patch-Checked r _ _ _ _ _ _ _ _ (>>-eq-ok (forbid (is_terminal r.status) _) _ h).1
call-Checked (op_succeed artifacts at now stages) r h =
    patch-Checked r succeeded _ _ _ _ _ _ _ (>>-eq-ok (require (is_running r.status) _) _ h).1
call-Checked (op_complete_partial artifacts reason at now stages) r h =
    patch-Checked r partial _ _ _ _ _ _ _ (>>-eq-ok (require (is_running r.status) _) _ h).1
call-Checked (op_fail failure at now stages) r h =
    patch-Checked r failed _ _ _ _ _ _ _
      (>>-eq-ok (require (is_queued r.status || is_running r.status) _) _ h).1
call-Checked (op_cancel at now reason stages) r h =
    patch-Checked r cancelled _ _ _ _ _ _ _
      (>>-eq-ok (require (is_queued r.status || is_running r.status) _) _ h).1

pub call-Advances :
    (op : Operation) (r : AnalysisRun) {r' : AnalysisRun} → call op r ≡ ok r' → Advances r r'
call-Advances op r h = elim (call-Checked op r h) [ checked x a s v e ↦ rw e a ]

-- Whatever a method returns is a well-formed manifest.
pub call-IsManifest :
    (op : Operation) (r : AnalysisRun) {r' : AnalysisRun} → call op r ≡ ok r' → IsManifest r'
call-IsManifest op r h = elim (call-Checked op r h) [
  | checked x a s v e ↦ rw e ((validate_run_iff x).0 v)
]

pub status-call :
    (op : Operation) (r : AnalysisRun) {r' : AnalysisRun}
    → call op r ≡ ok r'
    → r'.status ≡ target op r.status
status-call op r h = elim (call-Checked op r h) [ checked x a s v e ↦ rw e s ]

-- A guard that passed is a move of the lifecycle.
op-Move : (op : Operation) (s : AnalysisRunStatus) → admits op s ≡ true → Move s (target op s)
op-Move (op_start _ _ _) queued h = begin
op-Move (op_with_stages _) queued h = stay_queued
op-Move (op_with_stages _) running h = stay_running
op-Move (op_succeed _ _ _ _) running h = finish
op-Move (op_complete_partial _ _ _ _ _) running h = stop_partial
op-Move (op_fail _ _ _ _) queued h = fail_early
op-Move (op_fail _ _ _ _) running h = fail_late
op-Move (op_cancel _ _ _ _) queued h = cancel_early
op-Move (op_cancel _ _ _ _) running h = cancel_late
op-Move _ _ h = cc

call-admits :
    (op : Operation) (r : AnalysisRun) {r' : AnalysisRun}
    → call op r ≡ ok r'
    → admits op r.status ≡ true
unfolding call
call-admits (op_with_stages _) r h = ground arith
call-admits _ r h = ground arith

-- A method that returns has made a move of the lifecycle.
pub call-Move :
    (op : Operation) (r : AnalysisRun) {r' : AnalysisRun}
    → call op r ≡ ok r'
    → Move r.status r'.status
call-Move op r h = rw (status-call op r h) (op-Move op r.status (call-admits op r h))
