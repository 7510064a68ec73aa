-- ===== src/LocalStore/Growth.antt =====
-- What stays in the directories of v2/src/footballai_v2/storage/local_analysis_runs.py.
use technical_test_mitus_ai.Prelude.{
  ℕ, String, ◌≡◌, refl, ◌∙◌, true, false, some, List, [], ◌∷◌, ◌++◌, ◌==◌, string_eq, nat_eq,
  list_eq, text_eq_iff, inl, inr, Bool-cases,
}
use technical_test_mitus_ai.Contract.Run.{is_terminal, AnalysisRun}
use technical_test_mitus_ai.Lifecycle.Rules.{SameIdentity}
use technical_test_mitus_ai.Repository.Immutability.{
  Moves, rest, SameIdentity-refl, SameIdentity-trans, Moves-trans,
}
use technical_test_mitus_ai.LocalStore.Tree.{
  Node, file, manifest, Folder, Top, folder, Tree, at_name, replace,
}
use technical_test_mitus_ai.LocalStore.Runs.{entry_at}

pub record Descends (a b : AnalysisRun) : Type 0 where
  pub identity : SameIdentity a b
  pub status : Moves a.status b.status
  pub frozen : is_terminal a.status ≡ true → b ≡ a

pub Descends-refl : (r : AnalysisRun) → Descends r r
Descends-refl r = record { identity = SameIdentity-refl r; status = rest; frozen = λ t. refl }

pub Descends-trans : {a b c : AnalysisRun} → Descends a b → Descends b c → Descends a c
Descends-trans p q = record {
  identity = SameIdentity-trans p.identity q.identity;
  status = Moves-trans p.status q.status;
  frozen = λ t. let same = p.frozen t in q.frozen (rw same t) ∙ same;
}

-- Each file that is there stays, with its bytes.
abbrev pub Keeps : List (List ℕ × Node) → List (List ℕ × Node) → Type 0
Keeps before after =
    (path content : List ℕ)
    → entry_at path before ≡ some (file content)
    → entry_at path after ≡ some (file content)

pub record Extends (f g : Folder) : Type 0 where
  pub input : Keeps f.input g.input
  pub entries : Keeps f.entries g.entries
  pub cancelled :
      (payload : List ℕ)
      → f.cancel_marker ≡ some (file payload)
      → (later : List ℕ) × (g.cancel_marker ≡ some (file later))
  pub stored :
      (r : AnalysisRun)
      → f.manifest_file ≡ manifest r
      → (later : AnalysisRun) × (g.manifest_file ≡ manifest later) × Descends r later

pub Extends-refl : (f : Folder) → Extends f f
Extends-refl f = record {
  input = λ path content h. h;
  entries = λ path content h. h;
  cancelled = λ payload h. (payload, h);
  stored = λ r h. (r, h, Descends-refl r);
}

pub Extends-trans : {f g h : Folder} → Extends f g → Extends g h → Extends f h
Extends-trans p q = record {
  input = λ path content there. q.input path content (p.input path content there);
  entries = λ path content there. q.entries path content (p.entries path content there);
  cancelled = λ payload there. let (middle, m) = p.cancelled payload there in q.cancelled middle m;
  stored = λ r there.
      let (middle, m, first) = p.stored r there in
      let (last, l, second) = q.stored middle m in (last, l, Descends-trans first second);
}

-- Every directory of a run stays and extends.
abbrev pub Grows : Tree → Tree → Type 0
Grows before after =
    (k : String) (f : Folder)
    → at_name k before ≡ some (folder f)
    → (g : Folder) × (at_name k after ≡ some (folder g)) × Extends f g

pub Grows-refl : (tree : Tree) → Grows tree tree
Grows-refl tree k f h = (f, h, Extends-refl f)

pub Grows-trans : (a b c : Tree) → Grows a b → Grows b c → Grows a c
Grows-trans a b c p q k f h =
    let (g, hg, first) = p k f h in
    let (last, hl, second) = q k g hg in (last, hl, Extends-trans first second)

module _ (k : String) where
  pub at_name-++ :
      (tree more : Tree) {top : Top}
      → at_name k tree ≡ some top
      → at_name k (tree ++ more) ≡ some top
  at_name-++ [] more h = cc
  at_name-++ ((name, first) ∷ tree) more h = elim (Bool-cases (name == k)) [
    | inl here ↦ rw here (rw here at h)
    | inr away ↦ rw away (at_name-++ tree more (rw away at h))
  ]

  pub at_name-replace :
      (new : Folder) (tree : Tree) {top : Top}
      → at_name k tree ≡ some top
      → at_name k (replace k new tree) ≡ some (folder new)
  at_name-replace new [] h = cc
  at_name-replace new ((name, first) ∷ tree) h = elim (Bool-cases (name == k)) [
    | inl here ↦ rw here (rw here refl)
    | inr away ↦ rw away (rw away (at_name-replace new tree (rw away at h)))
  ]

  pub at_name-replace-other :
      (other : String) (new : Folder) (tree : Tree)
      → other == k ≡ false
      → at_name k (replace other new tree) ≡ at_name k tree
  at_name-replace-other other new [] apart = refl
  at_name-replace-other other new ((name, first) ∷ tree) apart = elim (Bool-cases (name == other)) [
    | inl here ↦ let same = (text_eq_iff name other).0 here in rw (here, same, apart) refl
    | inr away ↦ rw away (rw (at_name-replace-other other new tree apart) refl)
  ]

pub append-Grows : (tree more : Tree) → Grows tree (tree ++ more)
append-Grows tree more k f h = (f, at_name-++ k tree more h, Extends-refl f)

pub replace-Grows :
    (name : String) (f new : Folder) (tree : Tree)
    → at_name name tree ≡ some (folder f)
    → Extends f new
    → Grows tree (replace name new tree)
replace-Grows name f new tree found e k g h = elim (Bool-cases (name == k)) [
  | inl here ↦
      let same = (text_eq_iff name k).0 here in
      let there : at_name k tree ≡ some (folder f) = rw (← same) found in
      let equal : f ≡ g = cc (there, h) in
      (new, rw same (at_name-replace k new tree there), rw (← equal) e)
  | inr away ↦ (g, at_name-replace-other k name new tree away ∙ h, Extends-refl g)
]

pub entry_at-++ :
    (path : List ℕ) (entries more : List (List ℕ × Node)) {node : Node}
    → entry_at path entries ≡ some node
    → entry_at path (entries ++ more) ≡ some node
entry_at-++ path [] more h = cc
entry_at-++ path ((p, first) ∷ entries) more h = elim (Bool-cases (p == path)) [
  | inl here ↦ rw here (rw here at h)
  | inr away ↦ rw away (entry_at-++ path entries more (rw away at h))
]

pub append-Keeps : (entries more : List (List ℕ × Node)) → Keeps entries (entries ++ more)
append-Keeps entries more path content h = entry_at-++ path entries more h
