-- ===== src/Contract/Run/Shape.antt =====
-- What each status of an `AnalysisRun` says about its other fields.
use technical_test_mitus_ai.Prelude.{
  String, ◌≡◌, ◌≢◌, refl, ◌↔◌, ◌⊎◌, inl, inr, Bool, true, false, not, ◌&&◌, Option, none, some,
  List, [], ◌∷◌, is_empty, any, All, any_iff, arith, ok, codes, is_blank,
}
use technical_test_mitus_ai.Contract.Text.{validate_safe_text}
use technical_test_mitus_ai.Contract.Stage as Stage
use technical_test_mitus_ai.Contract.Stage.{StageStatus, StageExecution, optional_safe_text}
use technical_test_mitus_ai.Contract.Run.{
  AnalysisRunStatus, queued, running, succeeded, partial, failed, cancelled, AnalysisRun, truthy,
  is_active_stage, is_incomplete, validate_lifecycle,
}

abbrev pub Holds {ℓ} : {A : Type ℓ} → Option A → Type ℓ
Holds {A = A} o = (a : A) × (o ≡ some a)

-- Some stage has the property.
abbrev pub Some : (StageExecution → Bool) → List StageExecution → Type 0
Some p stages = any p stages ≡ true

-- The published shape of an attempt in each state.
abbrev pub Shape : AnalysisRunStatus → AnalysisRun → Type 0
Shape queued r =
    (r.started_at ≡ none)
    × (r.completed_at ≡ none)
    × (r.failure ≡ none)
    × (r.artifacts ≡ [])
    × (r.partial_reason ≡ none)
    × (r.cancellation_reason ≡ none)
    × All (λ s. Stage.is_queued s.status ≡ true) r.stages
Shape running r =
    Holds r.started_at
    × (r.completed_at ≡ none)
    × (r.failure ≡ none)
    × (r.artifacts ≡ [])
    × (r.partial_reason ≡ none)
    × (r.cancellation_reason ≡ none)
Shape succeeded r =
    Holds r.started_at
    × Holds r.completed_at
    × (r.failure ≡ none)
    × (r.partial_reason ≡ none)
    × (r.cancellation_reason ≡ none)
    × (r.artifacts ≢ [])
    × (r.stages ≢ [])
    × All (λ s. Stage.is_terminal s.status ≡ true) r.stages
    × All (λ s. s.required ≡ true → s.status ≡ StageStatus.succeeded) r.stages
Shape partial r =
    Holds r.started_at
    × Holds r.completed_at
    × (r.failure ≡ none)
    × Holds r.partial_reason
    × (r.cancellation_reason ≡ none)
    × (r.artifacts ≢ [])
    × (r.stages ≢ [])
    × All (λ s. Stage.is_terminal s.status ≡ true) r.stages
    × Some (λ s. s.required && is_incomplete s.status) r.stages
Shape failed r =
    Holds r.completed_at
    × Holds r.failure
    × (r.artifacts ≡ [])
    × (r.partial_reason ≡ none)
    × (r.cancellation_reason ≡ none)
    × All (λ s. s.status ≢ StageStatus.running) r.stages
Shape cancelled r =
    Holds r.completed_at
    × (r.failure ≡ none)
    × (r.artifacts ≡ [])
    × (r.partial_reason ≡ none)
    × All (λ s. s.status ≢ StageStatus.running) r.stages

-- A text that passed `_validate_safe_text` is not empty.
abbrev pub NoneOrText : Option String → Type 0
NoneOrText o = (o ≡ none) ⊎ (truthy o ≡ true)

safe_text-not-empty :
    (s : String) → optional_safe_text (some s) ≡ ok tt → is_empty (codes s) ≡ false
unfolding validate_safe_text is_blank
safe_text-not-empty s h = ground arith

pub optional_safe_text-NoneOrText :
    (o : Option String) → optional_safe_text o ≡ ok tt → NoneOrText o
optional_safe_text-NoneOrText none h = inl refl
optional_safe_text-NoneOrText (some s) h = inr (ground (arith, safe_text-not-empty s h))

module _ {P Q : StageExecution → Type 0} (f : (s : StageExecution) → P s → Q s) where
  All-imp : (stages : List StageExecution) → All P stages → All Q stages
  All-imp [] h = tt
  All-imp (s ∷ stages) h = (f s h.0, All-imp stages h.1)

none_iff :
    (p : StageExecution → Bool) (P : StageExecution → Type 0)
    → ((s : StageExecution) → p s ≡ false → P s)
    → ((s : StageExecution) → P s → p s ≡ false)
    → (stages : List StageExecution) → (any p stages ≡ false) ↔ All P stages
none_iff p P to from stages = (
  λ h. All-imp to stages ((any_iff p stages).0 h),
  λ h. (any_iff p stages).1 (All-imp from stages h),
)

active_iff :
    (stages : List StageExecution)
    → (any is_active_stage stages ≡ false) ↔ All (λ s. Stage.is_terminal s.status ≡ true) stages
active_iff = none_iff is_active_stage _ (λ s h. ground arith) (λ s h. ground arith)

required_iff :
    (stages : List StageExecution)
    → (any (λ s. s.required && not (Stage.is_succeeded s.status)) stages ≡ false)
      ↔ All (λ s. s.required ≡ true → s.status ≡ StageStatus.succeeded) stages
required_iff = none_iff _ _ (λ s h. ground arith) (λ s h. ground arith)

running_iff :
    (stages : List StageExecution)
    → (any (λ s. Stage.is_running s.status) stages ≡ false)
      ↔ All (λ s. s.status ≢ StageStatus.running) stages
running_iff = none_iff _ _ (λ s h. ground arith) (λ s h. ground arith)

queued_iff :
    (stages : List StageExecution)
    → (any (λ s. not (Stage.is_queued s.status)) stages ≡ false)
      ↔ All (λ s. Stage.is_queued s.status ≡ true) stages
queued_iff = none_iff _ _ (λ s h. ground arith) (λ s h. ground arith)

-- `_validate_lifecycle` accepts exactly the runs of the published shape.
pub lifecycle_iff :
    (status : AnalysisRunStatus) (r : AnalysisRun)
    → NoneOrText r.partial_reason
    → NoneOrText r.cancellation_reason
    → (validate_lifecycle status r ≡ ok tt) ↔ Shape status r
unfolding validate_lifecycle
lifecycle_iff queued r p c = (
  λ h. (
    ground arith,
    ground arith,
    ground arith,
    ground arith,
    ground arith,
    ground arith,
    (queued_iff r.stages).0 (ground arith),
  ),
  λ h. ground (arith, (queued_iff r.stages).1 h.6),
)
lifecycle_iff running r p c = (λ h. ground arith, λ h. ground arith)
lifecycle_iff succeeded r p c = (
  λ h. (
    ground arith,
    ground arith,
    ground arith,
    ground arith,
    ground arith,
    ground arith,
    ground arith,
    (active_iff r.stages).0 (ground arith),
    (required_iff r.stages).0 (ground arith),
  ),
  λ h. ground (arith, (active_iff r.stages).1 h.7, (required_iff r.stages).1 h.8),
)
lifecycle_iff partial r p c = (
  λ h. (
    ground arith,
    ground arith,
    ground arith,
    ground arith,
    ground arith,
    ground arith,
    ground arith,
    (active_iff r.stages).0 (ground arith),
    ground arith,
  ),
  λ h. ground (arith, (active_iff r.stages).1 h.7),
)
lifecycle_iff failed r p c = (
  λ h. (
    ground arith,
    ground arith,
    ground arith,
    ground arith,
    ground arith,
    (running_iff r.stages).0 (ground arith),
  ),
  λ h. ground (arith, (running_iff r.stages).1 h.5),
)
lifecycle_iff cancelled r p c = (
  λ h. (
    ground arith,
    ground arith,
    ground arith,
    ground arith,
    (running_iff r.stages).0 (ground arith),
  ),
  λ h. ground (arith, (running_iff r.stages).1 h.4),
)
