-- ===== src/LocalStore/Listing.antt =====
-- What `list_runs` returns, of v2/src/footballai_v2/storage/local_analysis_runs.py.
use mathlib.Core.List.{Perm}
use mathlib.Core.List.Perm
use technical_test_mitus_ai.Prelude.{
  run_not_found, ◌≤◌, String, List, [], ◌∷◌, ◌++◌, string_eq, Result, ok, err, All,
  contract_validation, manifest_conflict,
}
use technical_test_mitus_ai.Contract.Run.{AnalysisRun}
use technical_test_mitus_ai.LocalStore.Tree.{Top, foreign_file, linked_folder, folder, Tree}
use technical_test_mitus_ai.LocalStore.Runs.{load}

-- The runs that load, of the directories that are no links
abbrev pub loaded : Result AnalysisRun → List AnalysisRun
loaded (ok run) = run ∷ []
loaded (err raised) = []

abbrev pub stored_runs : Tree → Tree → List AnalysisRun
stored_runs [] tree = []
stored_runs ((name, folder f) ∷ rest) tree = loaded (load name tree) ++ stored_runs rest tree
stored_runs ((name, top) ∷ rest) tree = stored_runs rest tree

-- No creation is later than one before it.
abbrev pub NewestFirst : List AnalysisRun → Type 0
NewestFirst [] = Unit
NewestFirst (run ∷ runs) = All (λ older. older.created_at ≤ run.created_at) runs × NewestFirst runs

-- What `list_runs` takes as the answer of `load`: a run, or one of the three exceptions that it handles
pub data Handled : Result AnalysisRun → Type 0 where
  returned : {run : AnalysisRun} → Handled (ok run)
  refused : {reason : String} → Handled (err (contract_validation reason))
  misplaced : {reason : String} → Handled (err (manifest_conflict reason))
  missing : Handled (err run_not_found)

-- The load of a directory of a run is handled. Other entries of the root are not loaded.
abbrev pub HandledAt : Tree → String × Top → Type 0
HandledAt tree (name, foreign_file) = Unit
HandledAt tree (name, linked_folder f) = Unit
HandledAt tree (name, folder f) = Handled (load name tree)
