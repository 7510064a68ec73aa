-- ===== src/Execution/Keeps.antt =====
-- Whatever holds of the database through every call on the repository, the executor keeps: it
-- changes the database by such calls alone.
use technical_test_mitus_ai.Prelude.{
  ℕ, ◌+◌, String, ◌≡◌, refl, ap, Option, none, List, [], ◌∷◌, Result, ok, err,
}
use technical_test_mitus_ai.Repository as Repository
use technical_test_mitus_ai.Repository.Tables.{Database}
use technical_test_mitus_ai.Repository.History.{Call, call_save, commit, perform, perform_all}
use technical_test_mitus_ai.Contract.Run.{AnalysisRun}
use technical_test_mitus_ai.Contract.References.{ArtifactReference}
use technical_test_mitus_ai.Storage.Memory.{Artifact}
use technical_test_mitus_ai.Execution.Action.{
  Environment, World, Outcome, returned, raised, saved_in, interleave, set_active_index, utc_now,
  load, save, cancellation_requested, write_artifact, artifact_reference_integrity,
  materialize_input,
}
use technical_test_mitus_ai.Execution.Triple.{Holds, Keeps}

-- It holds before a sequence of calls, so after it.
abbrev pub Closed : (Database → Type 0) → Type 0
Closed D = (calls : List Call) (db : Database) → D db → D (perform_all calls db)

abbrev pub On : (Database → Type 0) → World → Type 0
On D w = D w.db

module _ {ℓ} {A : Type ℓ} where
  pub Holds-always : (G : World → Type 0) (o : Outcome A) (w : World) → G w → Holds (λ a. G) G o w
  Holds-always G (returned a) w h = h
  Holds-always G (raised e) w h = h

module _ (D : Database → Type 0) (closed : Closed D) (env : Environment) where
  pub interleave-On : (w : World) → D w.db → D (interleave env w).db
  unfolding interleave
  interleave-On w h = closed (env.calls w.port_calls) w.db h

  pub set_active_index-Keeps : (index : Option ℕ) → Keeps (On D) (set_active_index index)
  unfolding set_active_index
  set_active_index-Keeps index = record { at = λ w h. h }

  pub utc_now-Keeps : Keeps (On D) (utc_now env)
  unfolding utc_now
  utc_now-Keeps = record { at = λ w h. h }

  pub load-Keeps : (run_id : String) → Keeps (On D) (load env run_id)
  unfolding load
  load-Keeps run_id = record {
    at = λ w h. Holds-always (On D) _ (interleave env w) (interleave-On w h);
  }

  pub cancellation_requested-Keeps :
      (run_id : String) → Keeps (On D) (cancellation_requested env run_id)
  unfolding cancellation_requested
  cancellation_requested-Keeps run_id = record { at = λ w h. interleave-On w h }

  pub write_artifact-Keeps :
      (run_id : String) (a : Artifact) → Keeps (On D) (write_artifact env run_id a)
  unfolding write_artifact
  write_artifact-Keeps run_id a = record { at = λ w h. Holds-always (On D) _ _ (interleave-On w h) }

  pub artifact_reference_integrity-Keeps :
      (run_id : String) (r : ArtifactReference)
      → Keeps (On D) (artifact_reference_integrity env run_id r)
  unfolding artifact_reference_integrity
  artifact_reference_integrity-Keeps run_id r = record {
    at = λ w h. Holds-always (On D) _ _ (interleave-On w h);
  }

  pub materialize_input-Keeps : (run_id : String) → Keeps (On D) (materialize_input env run_id)
  unfolding materialize_input
  materialize_input-Keeps run_id = record {
    at = λ w h. Holds-always (On D) _ _ (interleave-On w h);
  }

  pub after_save :
      (run : AnalysisRun) (now : ℕ) (w : World) (r : Result Database)
      → Repository.save run none now w.db ≡ r
      → D w.db
      → Holds (λ a. On D) (On D) (saved_in w r).0 (saved_in w r).1
  unfolding perform_all perform
  after_save run now w (ok db) e h =
      rw (ap (λ r. commit w.db r) e) at (closed (call_save run none now ∷ []) w.db h)
  after_save run now w (err refusal) e h = h

  pub save-Keeps : (run : AnalysisRun) → Keeps (On D) (save env run)
  unfolding save utc_now
  save-Keeps run = record {
    at = λ w h.
        let w' = interleave env w in
        after_save run (env.clock w.readings) (record w' { readings = w'.readings + 1 })
          (Repository.save run none (env.clock w.readings) w'.db) refl (interleave-On w h);
  }
