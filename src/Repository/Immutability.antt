-- ===== src/Repository/Immutability.antt =====
-- Through any sequence of repository calls an attempt keeps its identity, moves only along the
-- lifecycle, and is frozen once it is terminal.
use native.Mathlib.Nat.{le_refl, le_trans}
use technical_test_mitus_ai.Prelude.{
  ◌≤◌, String, ◌≡◌, refl, ◌∙◌, true, false, some, List, [], ◌∷◌, arith, inl, inr, Result-cases,
}
use technical_test_mitus_ai.Contract.Run.{AnalysisRun, AnalysisRunStatus, is_terminal}
use technical_test_mitus_ai.Contract.Operations.{
  Move, stay_queued, begin, fail_early, cancel_early, stay_running, finish, stop_partial, fail_late,
  cancel_late,
}
use technical_test_mitus_ai.Lifecycle.Rules.{SameIdentity, same_provenance-SameIdentity}
use technical_test_mitus_ai.Repository.{create, save, request_cancellation, create_retry_attempt}
use technical_test_mitus_ai.Repository.Tables.{Attempt, Database}
use technical_test_mitus_ai.Repository.Saves.{row_of}
use technical_test_mitus_ai.Repository.History.{
  Call, call_create, call_save, call_request_cancellation, call_create_retry_attempt, perform,
  perform_all, IsProjected, Evolves, unchanged, saved, flagged, Kept, create-row, retry-row,
  save-Evolves, cancel-Evolves,
}

perform-Kept :
    (c : Call) (k : String) (db : Database) {a : Attempt}
    → IsProjected a
    → row_of k db ≡ some a
    → Kept a k (perform c db)
unfolding perform
perform-Kept (call_create run now) k db {a} p h = elim (Result-cases (create run now db)) [
  | inl (out, e) ↦ rw e (a, create-row k db h run now e, unchanged refl)
  | inr (_, e) ↦ rw e (a, h, unchanged refl)
]
perform-Kept (call_save run expected now) k db {a} p h =
    elim (Result-cases (save run expected now db)) [
      | inl (out, e) ↦ rw e (save-Evolves k db h run expected now e)
      | inr (_, e) ↦ rw e (a, h, unchanged refl)
    ]
perform-Kept (call_request_cancellation run_id) k db {a} p h =
    elim (Result-cases (request_cancellation run_id db)) [
      | inl (out, e) ↦ rw e (cancel-Evolves k db h run_id p e)
      | inr (_, e) ↦ rw e (a, h, unchanged refl)
    ]
perform-Kept (call_create_retry_attempt previous args fresh now) k db {a} p h =
    elim (Result-cases (create_retry_attempt previous args fresh now db)) [
      | inl (out, e) ↦ rw e (a, retry-row k db h previous args fresh now e, unchanged refl)
      | inr (_, e) ↦ rw e (a, h, unchanged refl)
    ]

-- Some moves of the lifecycle, one after the other.
pub data Moves : AnalysisRunStatus → AnalysisRunStatus → Type 0 where
  rest : {s : AnalysisRunStatus} → Moves s s
  then_move : {s t u : AnalysisRunStatus} → Move s t → Moves t u → Moves s u

pub record Lineage (a b : Attempt) : Type 0 where
  pub identity : SameIdentity a.manifest b.manifest
  pub status : Moves a.manifest.status b.manifest.status
  pub version : a.version ≤ b.version
  pub projected : IsProjected b
  pub cancelled : a.cancel_requested ≡ true → b.cancel_requested ≡ true
  pub frozen : is_terminal a.manifest.status ≡ true → b ≡ a

pub SameIdentity-refl : (r : AnalysisRun) → SameIdentity r r
SameIdentity-refl r = record {
  logical_analysis_id = refl;
  run_id = refl;
  attempt_number = refl;
  previous_attempt_run_id = refl;
  created_at = refl;
}

pub SameIdentity-trans :
    {a b c : AnalysisRun} → SameIdentity a b → SameIdentity b c → SameIdentity a c
SameIdentity-trans p q = record {
  logical_analysis_id = p.logical_analysis_id ∙ q.logical_analysis_id;
  run_id = p.run_id ∙ q.run_id;
  attempt_number = p.attempt_number ∙ q.attempt_number;
  previous_attempt_run_id = p.previous_attempt_run_id ∙ q.previous_attempt_run_id;
  created_at = p.created_at ∙ q.created_at;
}

pub Moves-trans : {s t u : AnalysisRunStatus} → Moves s t → Moves t u → Moves s u
Moves-trans rest n = n
Moves-trans (then_move m r) n = then_move m (Moves-trans r n)

-- No move leaves a terminal state.
pub Move-active : {s t : AnalysisRunStatus} → Move s t → is_terminal s ≡ false
Move-active stay_queued = refl
Move-active begin = refl
Move-active fail_early = refl
Move-active cancel_early = refl
Move-active stay_running = refl
Move-active finish = refl
Move-active stop_partial = refl
Move-active fail_late = refl
Move-active cancel_late = refl

pub Lineage-refl : (a : Attempt) → IsProjected a → Lineage a a
Lineage-refl a p = record {
  identity = SameIdentity-refl a.manifest;
  status = rest;
  version = le_refl a.version;
  projected = p;
  cancelled = λ c. c;
  frozen = λ t. refl;
}

Evolves-Lineage : {a b : Attempt} → IsProjected a → Evolves a b → Lineage a b
Evolves-Lineage {a} p (unchanged e) = rw e (Lineage-refl a p)
Evolves-Lineage {a} p (saved run m same e) = rw e (record {
  identity = same_provenance-SameIdentity a.manifest run same;
  status = then_move m rest;
  version = omega arith;
  projected = refl;
  cancelled = λ c. c;
  frozen = λ t. cc (Move-active m);
})
Evolves-Lineage {a} p (flagged active e) = rw e (record {
  identity = SameIdentity-refl a.manifest;
  status = rest;
  version = le_refl a.version;
  projected = p;
  cancelled = λ c. refl;
  frozen = λ t. cc;
})

pub Lineage-trans : {a b c : Attempt} → Lineage a b → Lineage b c → Lineage a c
Lineage-trans p q = record {
  identity = SameIdentity-trans p.identity q.identity;
  status = Moves-trans p.status q.status;
  version = le_trans p.version q.version;
  projected = q.projected;
  cancelled = λ c. q.cancelled (p.cancelled c);
  frozen = λ t. let same = p.frozen t in q.frozen (rw same t) ∙ same;
}

-- Whatever calls follow, accepted or refused, a stored attempt stays: with its identity, along the
-- moves of the lifecycle, at no smaller version, still flagged if it was, and unchanged in every
-- column if it was terminal.
pub perform_all-Lineage :
    (calls : List Call) (k : String) (db : Database) (a : Attempt)
    → IsProjected a
    → row_of k db ≡ some a
    → (b : Attempt) × (row_of k (perform_all calls db) ≡ some b) × Lineage a b
unfolding perform_all
perform_all-Lineage [] k db a p h = (a, h, Lineage-refl a p)
perform_all-Lineage (c ∷ calls) k db a p h =
    let (b, hb, step) = perform-Kept c k db p h in
    let first = Evolves-Lineage p step in
    let (last, hl, l) = perform_all-Lineage calls k (perform c db) b first.projected hb in
    (last, hl, Lineage-trans first l)
