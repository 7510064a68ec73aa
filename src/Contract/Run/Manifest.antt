-- ===== src/Contract/Run/Manifest.antt =====
-- `AnalysisRun.__post_init__` accepts exactly the well-formed manifests.
use technical_test_mitus_ai.Prelude.{
  ℕ, ◌≤◌, String, ◌≡◌, ◌≢◌, refl, ◌↔◌, true, false, Option, none, some, List, [], ◌∷◌, map, ◌==◌,
  nat_eq, string_eq, option_eq, contains, Distinct, all_distinct_iff, subset_of, All, all_iff,
  arith, or_else, ok, >>-eq-ok, text_eq_iff, is_blank,
}
use technical_test_mitus_ai.Contract.Text.{validate_uuid_v4, validate_run_id, require_non_empty}
use technical_test_mitus_ai.Contract.Json.{validate_mapping}
use technical_test_mitus_ai.Contract.Stage.{StageExecution, optional_safe_text}
use technical_test_mitus_ai.Contract.Run.{
  AnalysisRun, contract_version_v1, stage_name_eq, validate_unique_dependencies, validate_links,
  validate_stage_artifact_links, validate_lifecycle, check_previous, check_identity, check_times,
  validate_run,
}
use technical_test_mitus_ai.Contract.Run.Shape.{Shape, lifecycle_iff, optional_safe_text-NoneOrText}

-- `validate_uuid_v4` accepts `s`.
abbrev pub IsUuid : String → Type 0
IsUuid s = validate_uuid_v4 s ≡ ok tt

-- Attempt 1 has no predecessor, and every other one names it.
abbrev pub IsChained : ℕ → Option String → Type 0
IsChained n none = n ≡ 1
IsChained n (some p) = (n ≢ 1) × IsUuid p

abbrev pub NotBefore : Option ℕ → ℕ → Type 0
NotBefore none b = Unit
NotBefore (some a) b = b ≤ a

abbrev pub IsLinked : AnalysisRun → StageExecution → Type 0
IsLinked r s =
    (s.attempt_number ≡ r.attempt_number)
    × All (λ i. contains (map (λ a. a.artifact_id) r.artifacts) i ≡ true) s.produced_artifact_ids

pub record IsManifest (r : AnalysisRun) : Type 0 where
  pub version : r.contract_version ≡ contract_version_v1
  pub logical : IsUuid r.logical_analysis_id
  pub run : IsUuid r.run_id
  pub attempt : 1 ≤ r.attempt_number
  pub chained : IsChained r.attempt_number r.previous_attempt_run_id
  pub not_own : r.previous_attempt_run_id ≢ some r.run_id
  pub pipeline : is_blank r.pipeline_version ≡ false
  pub parameters : validate_mapping r.parameters ≡ ok tt
  pub started : NotBefore r.started_at r.created_at
  pub completed : NotBefore r.completed_at (or_else r.started_at r.created_at)
  pub partial_reason : optional_safe_text r.partial_reason ≡ ok tt
  pub cancellation_reason : optional_safe_text r.cancellation_reason ≡ ok tt
  pub model_names : Distinct (map (λ m. m.name) r.models)
  pub artifact_ids : Distinct (map (λ a. a.artifact_id) r.artifacts)
  pub artifact_names : Distinct (map (λ a. a.name) r.artifacts)
  pub artifact_paths : Distinct (map (λ a. a.relative_path) r.artifacts)
  pub stage_ids : Distinct (map (λ s. s.stage_id) r.stages)
  pub stage_names : Distinct (map (λ s. s.stage_name) r.stages)
  pub links : All (IsLinked r) r.stages
  pub shape : Shape r.status r

links_iff :
    (n : ℕ) (ids : List String) (stages : List StageExecution)
    → (validate_links n ids stages ≡ ok tt)
      ↔ All
          (λ s. (s.attempt_number ≡ n) × All (λ i. contains ids i ≡ true) s.produced_artifact_ids)
          stages
unfolding validate_links subset_of
links_iff n ids [] = (λ h. tt, λ h. refl)
links_iff n ids (s ∷ stages) = (
  λ h. (
    (ground arith, (all_iff (contains ids) s.produced_artifact_ids).0 (ground arith)),
    (links_iff n ids stages).0 (ground arith),
  ),
  λ h. ground (
    arith,
    (all_iff (contains ids) s.produced_artifact_ids).1 h.0.1,
    (links_iff n ids stages).1 h.1,
  ),
)

check_previous_iff : (n : ℕ) (p : Option String) → (check_previous n p ≡ ok tt) ↔ IsChained n p
unfolding check_previous validate_run_id
check_previous_iff n none = (λ h. ground arith, λ h. ground arith)
check_previous_iff n (some p) = (λ h. (ground arith, ground arith), λ h. ground arith)

not_own_iff : (o : Option String) (s : String) → ((o == some s) ≡ false) ↔ (o ≢ some s)
not_own_iff none s = (λ h. ground arith, λ h. refl)
not_own_iff (some p) s =
    (λ h. ground (arith, text_eq_iff p s), λ h. ground (arith, text_eq_iff p s))

module _ (r : AnalysisRun) where
  IsIdentified : Type 0
  IsIdentified =
      (r.contract_version ≡ contract_version_v1)
      × IsUuid r.logical_analysis_id
      × IsUuid r.run_id
      × (1 ≤ r.attempt_number)
      × IsChained r.attempt_number r.previous_attempt_run_id
      × (r.previous_attempt_run_id ≢ some r.run_id)
      × (is_blank r.pipeline_version ≡ false)
      × (validate_mapping r.parameters ≡ ok tt)

  identity_iff : (check_identity r ≡ ok tt) ↔ IsIdentified
  unfolding check_identity IsIdentified validate_run_id require_non_empty
  identity_iff = (
    λ h. (
      ground (arith, text_eq_iff r.contract_version contract_version_v1),
      ground arith,
      ground arith,
      ground arith,
      ground (arith, (check_previous_iff r.attempt_number r.previous_attempt_run_id).0),
      ground (arith, (not_own_iff r.previous_attempt_run_id r.run_id).0),
      ground arith,
      ground arith,
    ),
    λ h. ground (
      arith,
      (text_eq_iff r.contract_version contract_version_v1).1 h.0,
      (check_previous_iff r.attempt_number r.previous_attempt_run_id).1 h.4,
      (not_own_iff r.previous_attempt_run_id r.run_id).1 h.5,
    ),
  )

  times_iff :
      (check_times r ≡ ok tt)
      ↔ NotBefore r.started_at r.created_at
        × NotBefore r.completed_at (or_else r.started_at r.created_at)
  unfolding check_times
  times_iff = (λ h. (ground arith, ground arith), λ h. ground arith)

  IsUnique : Type 0
  IsUnique =
      Distinct (map (λ m. m.name) r.models)
      × Distinct (map (λ a. a.artifact_id) r.artifacts)
      × Distinct (map (λ a. a.name) r.artifacts)
      × Distinct (map (λ a. a.relative_path) r.artifacts)
      × Distinct (map (λ s. s.stage_id) r.stages)
      × Distinct (map (λ s. s.stage_name) r.stages)

  unique_iff : (validate_unique_dependencies r ≡ ok tt) ↔ IsUnique
  unfolding validate_unique_dependencies IsUnique
  unique_iff = (
    λ h. (
      (all_distinct_iff _).0 (ground arith),
      (all_distinct_iff _).0 (ground arith),
      (all_distinct_iff _).0 (ground arith),
      (all_distinct_iff _).0 (ground arith),
      (all_distinct_iff _).0 (ground arith),
      (all_distinct_iff _).0 (ground arith),
    ),
    λ h. ground (
      arith,
      (all_distinct_iff (map (λ m. m.name) r.models)).1 h.0,
      (all_distinct_iff (map (λ a. a.artifact_id) r.artifacts)).1 h.1,
      (all_distinct_iff (map (λ a. a.name) r.artifacts)).1 h.2,
      (all_distinct_iff (map (λ a. a.relative_path) r.artifacts)).1 h.3,
      (all_distinct_iff (map (λ s. s.stage_id) r.stages)).1 h.4,
      (all_distinct_iff (map (λ s. s.stage_name) r.stages)).1 h.5,
    ),
  )

  -- The parts of a successful `__post_init__`.
  parts :
      validate_run r ≡ ok tt
      → (check_identity r ≡ ok tt)
        × (check_times r ≡ ok tt)
        × (optional_safe_text r.partial_reason ≡ ok tt)
        × (optional_safe_text r.cancellation_reason ≡ ok tt)
        × (validate_unique_dependencies r ≡ ok tt)
        × (validate_stage_artifact_links r ≡ ok tt)
        × (validate_lifecycle r.status r ≡ ok tt)
  unfolding validate_run
  parts h =
      let (a, h1) = >>-eq-ok (check_identity r) _ h in
      let (b, h2) = >>-eq-ok (check_times r) _ h1 in
      let (c, h3) = >>-eq-ok (optional_safe_text r.partial_reason) _ h2 in
      let (d, h4) = >>-eq-ok (optional_safe_text r.cancellation_reason) _ h3 in
      let (e, h5) = >>-eq-ok (validate_unique_dependencies r) _ h4 in
      let (f, g) = >>-eq-ok (validate_stage_artifact_links r) _ h5 in (a, b, c, d, e, f, g)

  accepted : validate_run r ≡ ok tt → IsManifest r
  unfolding IsIdentified IsUnique validate_stage_artifact_links
  accepted h =
      let (a, b, c, d, e, f, g) = parts h in
      let i = identity_iff.0 a in
      let t = times_iff.0 b in
      let u = unique_iff.0 e in
      record {
        version = i.0;
        logical = i.1;
        run = i.2;
        attempt = i.3;
        chained = i.4;
        not_own = i.5;
        pipeline = i.6;
        parameters = i.7;
        started = t.0;
        completed = t.1;
        partial_reason = c;
        cancellation_reason = d;
        model_names = u.0;
        artifact_ids = u.1;
        artifact_names = u.2;
        artifact_paths = u.3;
        stage_ids = u.4;
        stage_names = u.5;
        links = (links_iff r.attempt_number (map (λ a. a.artifact_id) r.artifacts) r.stages).0 f;
        shape =
            (lifecycle_iff r.status r (optional_safe_text-NoneOrText r.partial_reason c)
                (optional_safe_text-NoneOrText r.cancellation_reason d)).0
              g;
      }

  well_formed : IsManifest r → validate_run r ≡ ok tt
  unfolding validate_run IsIdentified IsUnique validate_stage_artifact_links
  well_formed m =
      let identified : check_identity r ≡ ok tt =
        identity_iff.1 (
          m.version, m.logical, m.run, m.attempt, m.chained, m.not_own, m.pipeline, m.parameters,
        ) in
      let timed : check_times r ≡ ok tt = times_iff.1 (m.started, m.completed) in
      let unique : validate_unique_dependencies r ≡ ok tt = unique_iff.1 (
        m.model_names, m.artifact_ids, m.artifact_names, m.artifact_paths, m.stage_ids,
        m.stage_names,
      ) in
      let linked =
        (links_iff r.attempt_number (map (λ a. a.artifact_id) r.artifacts) r.stages).1 m.links in
      let shaped =
        (lifecycle_iff r.status r (optional_safe_text-NoneOrText r.partial_reason m.partial_reason)
            (optional_safe_text-NoneOrText r.cancellation_reason m.cancellation_reason)).1
          m.shape in
      rw (identified, timed, m.partial_reason, m.cancellation_reason, unique, linked, shaped)

  -- The constructor accepts a run exactly if it is a well-formed manifest: known version,
  -- canonical UUIDs, a pipeline version that is not blank, finite parameters, attempt 1 or a named
  -- predecessor other than itself, times in order, safe reasons, distinct names and identifiers,
  -- stages of this attempt that produced only listed artifacts, and the other fields as its status
  -- demands.
  pub validate_run_iff : (validate_run r ≡ ok tt) ↔ IsManifest r
  validate_run_iff = (accepted, well_formed)
