-- ===== src/Queue/Files.antt =====
-- The file tree of v2/src/footballai_v2/execution/queue/local_filesystem.py, and the calls that the
-- queue makes on it. A file stands in one of the five state directories under a name, its `.json`
-- left out; an entry is what reading it gives before the checks of `ExecutionJob`.
use technical_test_mitus_ai.Prelude.{
  ℕ, String, Bool, ◌&&◌, Option, none, some, List, [], ◌∷◌, ◌==◌, Eq, nat_eq, string_eq,
  if◌then◌else◌, false, ◌||◌, Result, ok, err, queue_record_error,
}
use technical_test_mitus_ai.Queue.Jobs.{ExecutionJob, execution_job}

-- `LocalFilesystemQueue.STATES`
pub data Place : Type 0 where
  queued claimed completed failed cancelled : Place

unfoldable pub place_number : Place → ℕ
place_number queued = 0
place_number claimed = 1
place_number completed = 2
place_number failed = 3
place_number cancelled = 4

instance abbrev pub place_eq : Eq Place
place_eq = record { beq = λ p p'. place_number p == place_number p' }

-- `unreadable`: a link, too long, no JSON object, or not the eight keys with a time where one is due
pub data Entry : Type 0 where
  unreadable : Entry
  readable : ExecutionJob → Entry

pub record File : Type 0 where
  pub place : Place
  pub name : String
  pub content : Entry

abbrev pub at : Place → String → File → Bool
at p n f = f.place == p && f.name == n

-- `path.exists()`
unfoldable pub exists : Place → String → List File → Bool
exists p n [] = false
exists p n (f ∷ files) = at p n f || exists p n files

abbrev pub lookup : Place → String → List File → Option Entry
lookup p n [] = none
lookup p n (f ∷ files) = let rest = lookup p n files in if at p n f then some f.content else rest

-- `(root / state).glob("*.json")`
abbrev pub names_in : Place → List File → List String
names_in p [] = []
names_in p (f ∷ files) = let rest = names_in p files in if f.place == p then f.name ∷ rest else rest

-- `path.unlink(missing_ok=True)`
unfoldable pub unlink : Place → String → List File → List File
unlink p n [] = []
unlink p n (f ∷ files) = let rest = unlink p n files in if at p n f then rest else f ∷ rest

unfoldable pub relabel : (p : Place) (n : String) (p' : Place) (n' : String) → List File → List File
relabel p n p' n' [] = []
relabel p n p' n' (f ∷ files) =
    (if at p n f then record f { place = p'; name = n' } else f) ∷ relabel p n p' n' files

-- `os.replace(source, destination)`, for a source that exists and another destination
unfoldable pub os_replace :
    (p : Place) (n : String) (p' : Place) (n' : String) → List File → List File
unfolding unlink relabel
os_replace p n p' n' files = relabel p n p' n' (unlink p' n' files)

-- `_write_replace`, for a path that exists
unfoldable pub write_replace : Place → String → ExecutionJob → List File → List File
write_replace p n job [] = []
write_replace p n job (f ∷ files) =
    (if at p n f then record f { content = readable job } else f) ∷ write_replace p n job files

-- `_move_raw`
unfoldable pub move_raw :
    (p : Place) (n : String) (p' : Place) (n' : String) → List File → List File
unfolding exists unlink os_replace
move_raw p n p' n' files =
    if exists p' n' files then unlink p n files else os_replace p n p' n' files

-- `_read`: whatever goes wrong is a QueueRecordError, also where the file is gone.
abbrev as_record_error : Result ExecutionJob → Result ExecutionJob
as_record_error (ok job) = ok job
as_record_error (err raised) = err queue_record_error

unfoldable pub read : Option Entry → Result ExecutionJob
unfolding execution_job
read none = err queue_record_error
read (some unreadable) = err queue_record_error
read (some (readable job)) = as_record_error (execution_job job)
