-- ===== src/Execution/Action.antt =====
-- The effects of v2/src/footballai_v2/execution/executor.py: what it calls on the two ports of
-- v2/src/footballai_v2/storage/ports.py, the clock, and exceptions. What was written before an exception
-- stays written. Other processes act before each call of a port.
use technical_test_mitus_ai.Prelude.{
  ℕ, ◌+◌, String, Bool, true, false, Option, none, List, Error, Result, ok, err,
}
use technical_test_mitus_ai.Contract.References.{ArtifactReference}
use technical_test_mitus_ai.Contract.Run.{AnalysisRun}
use technical_test_mitus_ai.Repository as Repository
use technical_test_mitus_ai.Repository.Tables.{Database}
use technical_test_mitus_ai.Repository.History.{Call, perform_all}
use technical_test_mitus_ai.Storage.Memory as Memory
use technical_test_mitus_ai.Storage.Memory.{Objects, Artifact, input_object}

-- What happens outside of the worker: the calls on the repository and the changes of the objects
-- that other processes make before the worker's call of that number, and the value of each reading
-- of the clock.
pub record Environment : Type 0 where
  pub calls : ℕ → List Call
  pub changes : ℕ → Objects → Objects
  pub clock : ℕ → ℕ
  pub sha256_of : List ℕ → String

-- The planes, the numbers of port calls and clock readings so far, and the executor's local
-- variable `active_index` (none for -1), which its exception handlers read.
pub record World : Type 0 where
  pub db : Database
  pub objects : Objects
  pub port_calls : ℕ
  pub readings : ℕ
  pub active_index : Option ℕ

pub data Exception : Type 0 where
  cancellation_observed : Exception
  execution_failure : (code safe_message : String) → Exception
  other_exception : Error → Exception

pub data Outcome {ℓ} (A : Type ℓ) : Type ℓ where
  returned : A → Outcome A
  raised : Exception → Outcome A

abbrev pub Action {ℓ} : Type ℓ → Type ℓ
Action A = World → Outcome A × World

module _ {ℓ} {A : Type ℓ} where
  unfoldable pub pure : A → Action A
  pure a w = (returned a, w)

  unfoldable pub raise : Exception → Action A
  raise e w = (raised e, w)

  unfoldable pub lift : Result A → Action A
  lift (ok a) w = (returned a, w)
  lift (err e) w = (raised (other_exception e), w)

  abbrev pub handled : Outcome A → (Exception → Action A) → Action A
  handled (returned a) handler w = (returned a, w)
  handled (raised e) handler w = handler e w

  -- `try: body except Exception as e: handler`
  unfoldable pub try_except : Action A → (Exception → Action A) → Action A
  try_except body handler w = handled (body w).0 handler (body w).1

module _ {ℓ κ} {A : Type ℓ} {B : Type κ} where
  abbrev pub continue : Outcome A → (A → Action B) → Action B
  continue (returned a) next w = next a w
  continue (raised e) next w = (raised e, w)

  infixl 5 ◌>>=◌
  unfoldable pub ◌>>=◌ : Action A → (A → Action B) → Action B
  ◌>>=◌ step next w = continue (step w).0 next (step w).1

infixl 5 ◌>>◌
abbrev pub ◌>>◌ {κ} : {B : Type κ} → Action (Unit {0}) → Action B → Action B
step >> next = step >>= (λ done. next)

unfoldable pub set_active_index : Option ℕ → Action (Unit {0})
set_active_index index w = (returned tt, record w { active_index = index })

abbrev pub returned_if : Bool → Exception → Outcome (Unit {0})
returned_if true e = returned tt
returned_if false e = raised e

abbrev outcome_of {ℓ} : {A : Type ℓ} → Result A → Outcome A
outcome_of (ok a) = returned a
outcome_of (err e) = raised (other_exception e)

-- A transaction that raises leaves the database as it was.
abbrev pub saved_in : World → Result Database → Outcome (Unit {0}) × World
saved_in w (ok db) = (returned tt, record w { db = db })
saved_in w (err e) = (raised (other_exception e), w)

abbrev stored_in : World → Result ArtifactReference × Objects → Outcome ArtifactReference × World
stored_in w (r, objects) = (outcome_of r, record w { objects = objects })

module _ (env : Environment) where
  -- What the others do before the next call of a port
  unfoldable pub interleave : World → World
  unfolding perform_all
  interleave w = record w {
    db = perform_all (env.calls w.port_calls) w.db;
    objects = env.changes w.port_calls w.objects;
    port_calls = w.port_calls + 1;
  }

  -- `utc_now()`
  unfoldable pub utc_now : Action ℕ
  utc_now w = (returned (env.clock w.readings), record w { readings = w.readings + 1 })

  unfoldable pub load : String → Action AnalysisRun
  unfolding interleave Repository.load
  load run_id w0 = let w = interleave w0 in (outcome_of (Repository.load run_id w.db), w)

  -- `save` reads the clock for its audit event.
  unfoldable pub save : AnalysisRun → Action (Unit {0})
  unfolding interleave utc_now Repository.save
  save run w0 =
      let w = (utc_now (interleave w0)).1 in
      saved_in w (Repository.save run none (env.clock w0.readings) w.db)

  unfoldable pub cancellation_requested : String → Action Bool
  unfolding interleave Repository.cancellation_requested
  cancellation_requested run_id w0 =
      let w = interleave w0 in (returned (Repository.cancellation_requested run_id w.db), w)

  unfoldable pub write_artifact : String → Artifact → Action ArtifactReference
  unfolding interleave Memory.write_artifact
  write_artifact run_id a w0 =
      let w = interleave w0 in stored_in w (Memory.write_artifact env.sha256_of run_id a w.objects)

  unfoldable pub artifact_reference_integrity : String → ArtifactReference → Action Bool
  unfolding interleave Memory.artifact_reference_integrity
  artifact_reference_integrity run_id r w0 =
      let w = interleave w0 in
      (outcome_of (Memory.artifact_reference_integrity env.sha256_of run_id r w.objects), w)

  abbrev content_of : Result (List ℕ × Memory.StoredObject) → Result (List ℕ)
  content_of (ok entry) = ok entry.1.content
  content_of (err e) = err e

  -- `materialize_input`: what the file holds that it yields
  unfoldable pub materialize_input : String → Action (List ℕ)
  unfolding interleave input_object
  materialize_input run_id w0 =
      let w = interleave w0 in (outcome_of (content_of (input_object run_id w.objects)), w)
