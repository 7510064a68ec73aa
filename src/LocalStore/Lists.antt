-- ===== src/LocalStore/Lists.antt =====
-- `list_runs` of v2/src/footballai_v2/storage/local_analysis_runs.py.
use technical_test_mitus_ai.Prelude.{
  String, List, [], ◌∷◌, ◌++◌, if◌then◌else◌, ltb, Result, ok, err, ◌>>=◌, ◌>>◌,
  contract_validation, manifest_conflict, run_not_found,
}
use technical_test_mitus_ai.Contract.Text.{validate_run_id}
use technical_test_mitus_ai.Contract.Run.{AnalysisRun}
use technical_test_mitus_ai.LocalStore.Tree.{Top, folder, Tree}
use technical_test_mitus_ai.LocalStore.Runs.{load}

-- What `list_runs` makes of a directory
abbrev pub listed : Result AnalysisRun → Result (List AnalysisRun)
listed (ok run) = ok (run ∷ [])
listed (err (contract_validation reason)) = ok []
listed (err (manifest_conflict reason)) = ok []
listed (err run_not_found) = ok []
listed (err raised) = err raised

abbrev pub list_entry : String → Top → Tree → Result (List AnalysisRun)
list_entry name (folder f) tree = listed (do validate_run_id name; load name tree)
list_entry name top tree = ok []

unfoldable pub list_entries : Tree → Tree → Result (List AnalysisRun)
unfolding load validate_run_id
list_entries [] tree = ok []
list_entries ((name, top) ∷ rest) tree = do
  runs ← list_entry name top tree
  later ← list_entries rest tree
  ok (runs ++ later)

-- `sorted(…, key=created_at, reverse=True)`, which keeps the order of equal keys
unfoldable pub insert_run : AnalysisRun → List AnalysisRun → List AnalysisRun
insert_run run [] = run ∷ []
insert_run run (first ∷ runs) =
    let rest = insert_run run runs in
    if ltb run.created_at first.created_at then first ∷ rest else run ∷ first ∷ runs

unfoldable pub newest_first : List AnalysisRun → List AnalysisRun
unfolding insert_run
newest_first [] = []
newest_first (run ∷ runs) = insert_run run (newest_first runs)

unfoldable pub list_runs : Tree → Result (List AnalysisRun)
unfolding list_entries newest_first
list_runs tree = do runs ← list_entries tree tree; ok (newest_first runs)
