-- ===== src/LocalStore/Tree.antt =====
-- The directory tree that v2/src/footballai_v2/storage/local_analysis_runs.py keeps its runs in.
use technical_test_mitus_ai.Prelude.{
  Error, ℕ, String, Bool, Option, none, some, List, [], ◌∷◌, ◌==◌, string_eq, if◌then◌else◌,
}
use technical_test_mitus_ai.Contract.Run.{AnalysisRun}

-- An entry of a directory. A link says whether it leads to a directory.
pub data Node : Type 0 where
  file : List ℕ → Node
  link : (to_directory : Bool) → Node
  directory : Node

-- What the file `manifest.json` is: absent, a link, a file whose text or contents raise an exception when it
-- is read and decoded, or the manifest of a run. What raises JSONDecodeError or OSError stands here with the
-- ContractValidationError that `load` makes of it.
pub data Manifest : Type 0 where
  absent : Manifest
  linked : Manifest
  raising : Error → Manifest
  manifest : AnalysisRun → Manifest

-- A directory <root>/<run-id>, with the files of its child input/ by name, and the entries below it by
-- relative path, artifacts/ included
pub record Folder : Type 0 where
  pub manifest_file : Manifest
  pub cancel_marker : Option Node
  pub input : List (List ℕ × Node)
  pub entries : List (List ℕ × Node)

pub data Top : Type 0 where
  foreign_file : Top
  linked_folder : Folder → Top
  folder : Folder → Top

abbrev pub Tree : Type 0
Tree = List (String × Top)

abbrev pub at_name : String → Tree → Option Top
at_name k [] = none
at_name k ((name, top) ∷ tree) = let rest = at_name k tree in if name == k then some top else rest

-- The entry of a name replaced
abbrev pub replace : String → Folder → Tree → Tree
replace k new [] = []
replace k new ((name, top) ∷ tree) =
    let rest = replace k new tree in
    if name == k then (name, folder new) ∷ tree else (name, top) ∷ rest
