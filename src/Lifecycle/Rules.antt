-- ===== src/Lifecycle/Rules.antt =====
-- What `ensure_transition_allowed` accepts, and that it agrees with the methods of `AnalysisRun`.
use technical_test_mitus_ai.Prelude.{
  String, ◌≡◌, refl, ◌↔◌, true, false, Option, none, some, List, [], ◌∷◌, ◌==◌, nat_eq, string_eq,
  option_eq, arith, ok, text_eq_refl, text_eq_iff, ap, nat_eq_iff,
}
use technical_test_mitus_ai.Contract.Json.{mapping_eq}
use technical_test_mitus_ai.Contract.Json.Equality.{keyed_fields, mapping_eq_refl}
use technical_test_mitus_ai.Contract.References.{
  ModelReference, input_eq, code_eq, model_eq, input_eq_refl, code_eq_refl, model_eq_refl,
}
use technical_test_mitus_ai.Contract.Run.{
  DataOrigin, real, synthetic, evaluation, legacy_v1, AnalysisRunStatus, queued, running, succeeded,
  partial, failed, cancelled, is_terminal, AnalysisRun,
}
use technical_test_mitus_ai.Contract.Operations.{
  Operation, call, Advances, Move, stay_queued, begin, fail_early, cancel_early, stay_running,
  finish, stop_partial, fail_late, cancel_late, call-Advances, call-Move, call-IsManifest,
}
use technical_test_mitus_ai.Lifecycle.{
  permitted, origin_eq, models_beq, same_provenance, ensure_transition_allowed,
}

pub Move→permitted : {a b : AnalysisRunStatus} → Move a b → permitted a b ≡ true
unfolding permitted
Move→permitted stay_queued = refl
Move→permitted begin = refl
Move→permitted fail_early = refl
Move→permitted cancel_early = refl
Move→permitted stay_running = refl
Move→permitted finish = refl
Move→permitted stop_partial = refl
Move→permitted fail_late = refl
Move→permitted cancel_late = refl

permitted→Move : (a b : AnalysisRunStatus) → permitted a b ≡ true → Move a b
unfolding permitted
permitted→Move queued queued h = stay_queued
permitted→Move queued running h = begin
permitted→Move queued failed h = fail_early
permitted→Move queued cancelled h = cancel_early
permitted→Move running running h = stay_running
permitted→Move running succeeded h = finish
permitted→Move running partial h = stop_partial
permitted→Move running failed h = fail_late
permitted→Move running cancelled h = cancel_late
permitted→Move _ _ h = cc

terminal_stuck : (a b : AnalysisRunStatus) → permitted a b ≡ true → is_terminal a ≡ false
unfolding permitted
terminal_stuck queued b h = refl
terminal_stuck running b h = refl
terminal_stuck _ b h = cc

-- A stored attempt may be replaced exactly along a move of the lifecycle, with the same
-- provenance: so never once it is terminal.
pub allowed_iff :
    (current updated : AnalysisRun)
    → (ensure_transition_allowed current updated ≡ ok tt)
      ↔ Move current.status updated.status × (same_provenance current updated ≡ true)
unfolding ensure_transition_allowed
allowed_iff current updated = (
  λ h. (permitted→Move current.status updated.status (ground arith), ground arith),
  λ h. ground (
    arith,
    Move→permitted h.0,
    terminal_stuck current.status updated.status (Move→permitted h.0),
  ),
)

origin_eq_refl : (o : DataOrigin) → (o == o) ≡ true
origin_eq_refl real = refl
origin_eq_refl synthetic = refl
origin_eq_refl evaluation = refl
origin_eq_refl legacy_v1 = refl

models_beq_refl : (ms : List ModelReference) → models_beq ms ms ≡ true
unfolding models_beq
models_beq_refl [] = refl
models_beq_refl (m ∷ ms) = rw (model_eq_refl m) (models_beq_refl ms)

option_text_refl : (o : Option String) → (o == o) ≡ true
option_text_refl none = refl
option_text_refl (some s) = text_eq_refl s

same_provenance_refl :
    (r : AnalysisRun) → mapping_eq r.parameters r.parameters ≡ true → same_provenance r r ≡ true
unfolding same_provenance
same_provenance_refl r h =
    rw
      (
        text_eq_refl r.contract_version,
        text_eq_refl r.logical_analysis_id,
        text_eq_refl r.run_id,
        (nat_eq_iff r.attempt_number r.attempt_number).1 refl,
        option_text_refl r.previous_attempt_run_id,
        origin_eq_refl r.data_origin,
        input_eq_refl r.input,
        code_eq_refl r.code,
        text_eq_refl r.pipeline_version,
        h,
        models_beq_refl r.models,
      )
      ((nat_eq_iff r.created_at r.created_at).1 refl)

same_provenance-Advances :
    (a b : AnalysisRun)
    → Advances a b
    → mapping_eq a.parameters a.parameters ≡ true
    → same_provenance a b ≡ true
unfolding same_provenance
same_provenance-Advances a b s h =
    rw
      (
        s.contract_version, s.logical_analysis_id, s.run_id, s.attempt_number,
        s.previous_attempt_run_id, s.data_origin, s.input, s.code, s.pipeline_version, s.parameters,
        s.models, s.created_at,
      )
      (same_provenance_refl a h)

-- Whatever run a lifecycle method returns may be stored over the run it was called on. (The keys of
-- the parameters are distinct, as in every dict.)
pub call_allowed :
    (op : Operation) (r r' : AnalysisRun)
    → keyed_fields r.parameters ≡ true
    → call op r ≡ ok r'
    → ensure_transition_allowed r r' ≡ ok tt
call_allowed op r r' keys h =
    let a = call-Advances op r h in
    let m = call-IsManifest op r h in
    (allowed_iff r r').1 (
      call-Move op r h,
      same_provenance-Advances r r' a
          (mapping_eq_refl r.parameters keys (rw a.parameters at m.parameters)),
    )

-- The identity of an attempt, as the compared fields fix it.
pub record SameIdentity (a b : AnalysisRun) : Type 0 where
  pub logical_analysis_id : a.logical_analysis_id ≡ b.logical_analysis_id
  pub run_id : a.run_id ≡ b.run_id
  pub attempt_number : a.attempt_number ≡ b.attempt_number
  pub previous_attempt_run_id : a.previous_attempt_run_id ≡ b.previous_attempt_run_id
  pub created_at : a.created_at ≡ b.created_at

option_text_eq : (a b : Option String) → (a == b) ≡ true → a ≡ b
option_text_eq none none h = refl
option_text_eq none (some b) h = cc
option_text_eq (some a) none h = cc
option_text_eq (some a) (some b) h = ap some ((text_eq_iff a b).0 h)

pub same_provenance-SameIdentity :
    (a b : AnalysisRun) → same_provenance a b ≡ true → SameIdentity a b
unfolding same_provenance
same_provenance-SameIdentity a b h = record {
  logical_analysis_id = (text_eq_iff _ _).0 (ground arith);
  run_id = (text_eq_iff _ _).0 (ground arith);
  attempt_number = (nat_eq_iff _ _).0 (ground arith);
  previous_attempt_run_id = option_text_eq _ _ (ground arith);
  created_at = (nat_eq_iff _ _).0 (ground arith);
}
