-- ===== src/Execution/Gate.antt =====
-- The integrity gate of execution/executor.py.
use technical_test_mitus_ai.Prelude.{
  ℕ, String, ◌≡◌, sym, ap, subst, ◌∙◌, true, false, some, List, [], ◌∷◌, ◌++◌, Result, ok, err, All,
  Bool-cases, Result-cases, inl, inr, require, >>-eq-ok,
}
use technical_test_mitus_ai.Contract.References.{ArtifactReference}
use technical_test_mitus_ai.Contract.Run.{AnalysisRun, AnalysisRunStatus}
use technical_test_mitus_ai.Contract.Transitions.{is_running, succeed, complete_partial}
use technical_test_mitus_ai.Contract.Operations.{analysis_run-eq}
use technical_test_mitus_ai.Repository.Tables.{Attempt, Database}
use technical_test_mitus_ai.Repository.Saves.{row_of}
use technical_test_mitus_ai.Storage.Memory as Memory
use technical_test_mitus_ai.Storage.Memory.{Objects}
use technical_test_mitus_ai.Execution.Action.{
  Environment, World, returned, raised, pure, raise, lift, ◌>>=◌, ◌>>◌, interleave, saved_in,
  utc_now, load, save, artifact_reference_integrity, Outcome,
}
use technical_test_mitus_ai.Execution.Pipeline.{Payloads, AnalysisExecutor}
use technical_test_mitus_ai.Execution.Publication.{
  accept, verify_all, forces_partial, stop_last, finish_run, publish,
}
use technical_test_mitus_ai.Repository.History.{IsProjected}
use technical_test_mitus_ai.Repository.Immutability.{Lineage-refl}
use technical_test_mitus_ai.Execution.Keeps.{On, utc_now-Keeps}
use technical_test_mitus_ai.Execution.Rounds.{
  write_payloads-Keeps, write_aliases-Keeps, verify_all-Keeps,
}
use technical_test_mitus_ai.Execution.Ending.{
  Descends, Descends-Closed, Stored, load-Stored, Stored-named, save-Stored, finish_run-final,
}
use technical_test_mitus_ai.Execution.Triple.{
  Triple, Holds, Keeps, Triple-bind, Triple-weaken, Triple-assume, Triple-post, Triple-any,
  Triple-both, Triple-lift_any,
}

-- No other process changes an object.
abbrev pub ObjectsQuiet : Environment → Type 0
ObjectsQuiet env = (n : ℕ) (objects : Objects) → env.changes n objects ≡ objects

-- Reading the artifact back gives its size and digest.
abbrev pub ReadsBack : Environment → String → Objects → ArtifactReference → Type 0
ReadsBack env run_id objects r =
    Memory.artifact_reference_integrity env.sha256_of run_id r objects ≡ ok true

-- A finished run has the artifacts that were verified.
succeed-artifacts :
    (current : AnalysisRun) (artifacts : List ArtifactReference) (now : ℕ) {run : AnalysisRun}
    → finish_run current artifacts now ≡ ok run
    → run.artifacts ≡ artifacts
unfolding finish_run succeed complete_partial
succeed-artifacts current artifacts now h = elim (Bool-cases (forces_partial current)) [
  | inr whole ↦
      let made = (>>-eq-ok (require (is_running current.status) _) _ (rw whole at h)).1 in
      ap (λ (r : AnalysisRun). r.artifacts) (analysis_run-eq _ made).1
  | inl part ↦ elim (Result-cases (stop_last current.stages)) [
    | inl (stages, stopped) ↦
        let made =
          (>>-eq-ok (require (is_running current.status) _) _ (rw (part, stopped) at h)).1 in
        ap (λ (r : AnalysisRun). r.artifacts) (analysis_run-eq _ made).1
    | inr (e, failed) ↦ cc (rw (part, failed) at h)
  ]
]

module _ (env : Environment) (quiet : ObjectsQuiet env) where
  objects_stay : (w : World) → (interleave env w).objects ≡ w.objects
  unfolding interleave
  objects_stay w = quiet w.port_calls w.objects

  -- A fact about the objects alone
  module _ (O : Objects → Type 0) where
    abbrev OnObjects : World → Type 0
    OnObjects w = O w.objects

    still : (w : World) → O w.objects → O (interleave env w).objects
    still w h = rw (objects_stay w) h

    any_outcome {ℓ} :
        {A : Type ℓ} (o : Outcome A) (w : World)
        → O w.objects
        → Holds (λ a. OnObjects) OnObjects o w
    any_outcome (returned a) w h = h
    any_outcome (raised e) w h = h

    any_saved :
        (w : World) (r : Result Database)
        → O w.objects
        → Holds (λ a. OnObjects) OnObjects (saved_in w r).0 (saved_in w r).1
    any_saved w (ok db) h = h
    any_saved w (err e) h = h

    load-still : (run_id : String) → Keeps OnObjects (load env run_id)
    unfolding load
    load-still run_id = record { at = λ w h. any_outcome _ (interleave env w) (still w h) }

    now-still : Keeps OnObjects (utc_now env)
    unfolding utc_now
    now-still = record { at = λ w h. h }

    save-still : (run : AnalysisRun) → Keeps OnObjects (save env run)
    unfolding save utc_now
    save-still run = record { at = λ w h. any_saved _ _ (still w h) }

  -- One artifact checked, and what was known of the objects kept
  accept_checked :
      (O : Objects → Type 0) (run_id : String) (r : ArtifactReference)
      → Triple
          (OnObjects O)
          (artifact_reference_integrity env run_id r >>= accept)
          (λ done w. O w.objects × ReadsBack env run_id w.objects r)
          (λ w. Unit)
  unfolding artifact_reference_integrity ◌>>=◌ pure raise
  accept_checked O run_id r = record {
    at = λ w h.
        let w' = interleave env w in
        elim (Result-cases
          (Memory.artifact_reference_integrity env.sha256_of run_id r w'.objects)) [
            | inl (true, read) ↦ rw read (still O w h, read)
            | inl (false, read) ↦ rw read tt
            | inr (e, read) ↦ rw read tt
          ];
  }

  verify_all-ReadsBack :
      (O : Objects → Type 0) (run_id : String) (references : List ArtifactReference)
      → Triple
          (OnObjects O)
          (verify_all env run_id references)
          (λ done w. O w.objects × All (ReadsBack env run_id w.objects) references)
          (λ w. Unit)
  unfolding verify_all pure
  verify_all-ReadsBack O run_id [] = record { at = λ w h. (h, tt) }
  verify_all-ReadsBack O run_id (r ∷ references) =
      Triple-bind (λ done w. O w.objects × ReadsBack env run_id w.objects r) _ _
        (accept_checked O run_id r)
        λ done.
          Triple-post _ _ _ (λ a w ((h, first), others). (h, (first, others)))
            (verify_all-ReadsBack (λ o. O o × ReadsBack env run_id o r) run_id references)

-- Registered in the stored attempt, and intact in the storage
abbrev pub Published : Environment → (run_id k : String) → AnalysisRunStatus → World → Type 0
Published env run_id k s w =
    (b : Attempt) × (row_of k w.db ≡ some b)
    × (b.manifest.status ≡ s)
    × All (ReadsBack env run_id w.objects) b.manifest.artifacts

module _ (env : Environment) (quiet : ObjectsQuiet env) (executor : AnalysisExecutor)
    (run_id k : String) (a : Attempt) (named : a.manifest.run_id ≡ k) where
  abbrev Intact : World → Type 0
  Intact = On (Descends k a)

  abbrev Verified : List ArtifactReference → Objects → Type 0
  Verified references objects = All (ReadsBack env run_id objects) references

  abbrev Anything : World → Type 0
  Anything w = Unit

  finish-Published :
      (references : List ArtifactReference) (current run : AnalysisRun)
      → run.run_id ≡ k
      → run.artifacts ≡ references
      → Triple
          (λ w. Intact w × Verified references w.objects)
          (save env run >> pure run.status)
          (Published env run_id k)
          Anything
  unfolding pure
  finish-Published references current run mine registered =
      Triple-bind _ _ _
        (Triple-any _ _ (
          Triple-both _ _ _ (save-Stored k a named env run mine)
            (save-still env quiet (Verified references) run)))
        λ done. record {
          at = λ w ((b, stored, l, e), verified). (
            b,
            stored,
            ap (λ (r : AnalysisRun). r.status) e,
            subst (λ (r : List ArtifactReference). Verified r w.objects)
                (sym (ap (λ (r : AnalysisRun). r.artifacts) e ∙ registered)) verified,
          );
        }

  now-both :
      (references : List ArtifactReference)
      → Triple
          (λ w. Intact w × Verified references w.objects)
          (utc_now env)
          (λ now w. Intact w × Verified references w.objects)
          Anything
  now-both references = Triple-any _ _ (
      Triple-both _ _ _ (utc_now-Keeps (Descends k a) (Descends-Closed k a) env)
        (now-still env quiet (Verified references)))

  register-Published :
      (references : List ArtifactReference)
      → Triple
          (λ w. Intact w × Verified references w.objects)
          (do
            current ← load env k
            now ← utc_now env
            finished ← lift (finish_run current references now)
            save env finished
            pure finished.status)
          (Published env run_id k)
          Anything
  register-Published references =
      Triple-bind (λ current w. Stored k a named env current w × Verified references w.objects) _ _
        (Triple-any _ _ (
          Triple-both _ _ _ (load-Stored k a named env)
            (load-still env quiet (Verified references) k)))
        λ current.
          Triple-weaken _ _
            (λ w (found, verified).
              let (intact, mine) = Stored-named k a named env current w found in
              ((intact, verified), mine))
            (Triple-assume _ _ _ λ mine. Triple-bind _ _ _ (now-both references) λ now.
              Triple-lift_any _ _ _ λ run made.
                finish-Published references current run
                  ((finish_run-final current references now made).0 ∙ mine)
                  (succeed-artifacts current references now made))

  publish-triple :
      (payloads : Payloads)
      → Triple Intact (publish env executor run_id k payloads) (Published env run_id k) Anything
  unfolding publish
  publish-triple payloads =
      let D = Descends k a in
      let closed = Descends-Closed k a in
      Triple-bind _ _ _
        (Triple-any _ _ (write_payloads-Keeps D closed env executor run_id payloads))
        λ references.
          Triple-bind _ _ _
            (Triple-any _ _ (write_aliases-Keeps D closed env executor run_id payloads))
            λ aliases.
              Triple-bind (λ done w. Intact w × Verified (references ++ aliases) w.objects) _ _
                (Triple-weaken _ _ (λ w h. (h, tt))
                  (Triple-post _ _ _ (λ done w (intact, (nothing, verified)). (intact, verified))
                    (Triple-any _ _ (
                      Triple-both _ _ _
                        (verify_all-Keeps D closed env run_id (references ++ aliases))
                        (verify_all-ReadsBack env quiet (λ o. Unit) run_id
                          (references ++ aliases))))))
                λ done. register-Published (references ++ aliases)

-- Where no other process changes an object, a publication that returns has stored the attempt in
-- the status that it returns, and every artifact that the attempt lists reads back with its size
-- and digest.
pub publish-Published :
    (env : Environment) (executor : AnalysisExecutor) (run_id k : String) (payloads : Payloads)
    (w : World) (a : Attempt)
    → ObjectsQuiet env
    → IsProjected a
    → a.manifest.run_id ≡ k
    → row_of k w.db ≡ some a
    → Holds
        (Published env run_id k)
        (λ w'. Unit)
        (publish env executor run_id k payloads w).0
        (publish env executor run_id k payloads w).1
publish-Published env executor run_id k payloads w a quiet projected named stored =
    (publish-triple env quiet executor run_id k a named payloads).at w
      (a, stored, Lineage-refl a projected)
