-- ===== src/Queue/Drained.antt =====
-- When `claim` of v2/src/footballai_v2/execution/queue/local_filesystem.py finds nothing.
use technical_test_mitus_ai.Prelude.{
  ℕ, String, ◌≡◌, refl, sym, ap, ◌∙◌, inl, inr, Bool, true, false, ◌||◌, none, List, [], ◌∷◌, ◌==◌,
  nat_eq, string_eq, contains, Distinct, All, Bool-cases, ok, Result-cases, ok-injective,
  text_eq_refl, text_eq_iff,
}
use technical_test_mitus_ai.Queue.Jobs.{is_bad_worker}
use technical_test_mitus_ai.Queue.Files.{
  place_eq, place_number, queued, failed, File, exists, lookup, names_in, relabel, os_replace, read,
}
use technical_test_mitus_ai.Queue.Local.{
  Queue, precedes, insert_name, sort_names, set_aside, claim_from, claim,
}
use technical_test_mitus_ai.Queue.Records.{
  records, names, exists-apart, move_raw-free, unlink-absent,
}
use technical_test_mitus_ai.Queue.Conservation.{
  Orderly, set_aside-records, claim_from-found, claim_from-passed,
}
use technical_test_mitus_ai.Queue.Claims.{claim_from-none}
use technical_test_mitus_ai.Queue.Service.{claim-fine, claim-bad, or_true}

-- Every queued file is among the sources.
abbrev Covered : List String → List File → Type 0
Covered sources files = All (λ m. contains sources m ≡ true) (names_in queued files)

contains-insert_name :
    (n m : String) (ns : List String)
    → (n == m) || contains ns m ≡ true
    → contains (insert_name n ns) m ≡ true
unfolding contains
contains-insert_name n m [] h = h
contains-insert_name n m (k ∷ ns) h = elim (Bool-cases (precedes n k)) [
  | inl first ↦ rw first h
  | inr later ↦ rw later (elim (Bool-cases (k == m)) [
    | inl here ↦ rw here refl
    | inr away ↦ rw away (contains-insert_name n m ns (rw away at h))
  ])
]

All-weaken :
    (p p' : String → Bool) (f : (m : String) → p m ≡ true → p' m ≡ true) (ns : List String)
    → All (λ m. p m ≡ true) ns
    → All (λ m. p' m ≡ true) ns
All-weaken p p' f [] h = tt
All-weaken p p' f (n ∷ ns) h = (f n h.0, All-weaken p p' f ns h.1)

sort_names-covers : (ns : List String) → All (λ m. contains (sort_names ns) m ≡ true) ns
sort_names-covers [] = tt
sort_names-covers (n ∷ ns) = (
  contains-insert_name n n (sort_names ns) (rw (text_eq_refl n) refl),
  All-weaken (contains (sort_names ns)) (contains (insert_name n (sort_names ns)))
      (λ m found. contains-insert_name n m (sort_names ns) (rw found (or_true (n == m)))) ns
      (sort_names-covers ns),
)

name_apart : (a b : String) → a == b ≡ false → b == a ≡ false
name_apart a b other = elim (Bool-cases (b == a)) [
  | inl same ↦ cc ((text_eq_iff a b).1 (sym ((text_eq_iff b a).0 same)), other)
  | inr away ↦ away
]

-- A covered name other than the first source is covered by the rest.
covered_later :
    (n m : String) (sources : List String)
    → m == n ≡ false
    → contains (n ∷ sources) m ≡ true
    → contains sources m ≡ true
unfolding contains
covered_later n m sources other h = rw (name_apart m n other) at h

relabel-Covered :
    (n : String) (sources : List String) (files : List File)
    → Covered (n ∷ sources) files
    → Covered sources (relabel queued n failed n files)
unfolding relabel place_number
relabel-Covered n sources [] h = tt
relabel-Covered n sources (f ∷ files) h = elim (Bool-cases (f.place == queued)) [
  | inl active ↦ elim (Bool-cases (f.name == n)) [
    | inl mine ↦ rw (active, mine) (relabel-Covered n sources files (rw active at h).1)
    | inr other ↦
        rw (active, other)
          (rw active (
            covered_later n f.name sources other (rw active at h).0,
            relabel-Covered n sources files (rw active at h).1,
          ))
  ]
  | inr away ↦ rw away (rw away (relabel-Covered n sources files (rw away at h)))
]

absent-Covered :
    (n : String) (sources : List String) (files : List File)
    → exists queued n files ≡ false
    → Covered (n ∷ sources) files
    → Covered sources files
unfolding exists
absent-Covered n sources [] gone h = tt
absent-Covered n sources (f ∷ files) gone h = elim (Bool-cases (f.place == queued)) [
  | inl active ↦ elim (Bool-cases (f.name == n)) [
    | inl mine ↦ cc (rw (active, mine) at gone)
    | inr other ↦ rw active (
      covered_later n f.name sources other (rw active at h).0,
      absent-Covered n sources files (rw (active, other) at gone) (rw active at h).1,
    )
  ]
  | inr away ↦ rw away (absent-Covered n sources files (rw away at gone) (rw away at h))
]

queued_not-failed : queued == failed ≡ false
unfolding place_number
queued_not-failed = refl

set_aside-Covered :
    (n : String) (sources : List String) (files : List File)
    → Distinct (names (records files))
    → Covered (n ∷ sources) files
    → Covered sources (set_aside n files)
unfolding set_aside os_replace
set_aside-Covered n sources files d h = elim (Bool-cases (exists queued n files)) [
  | inl here ↦
      let free = exists-apart queued failed n files d queued_not-failed here in
      rw (here, move_raw-free queued failed n n files free, unlink-absent failed n files free)
        (relabel-Covered n sources files h)
  | inr gone ↦ rw gone (absent-Covered n sources files gone h)
]

nothing_covered : (ns : List String) → All (λ m. contains [] m ≡ true) ns → ns ≡ []
unfolding contains
nothing_covered [] h = refl
nothing_covered (n ∷ ns) h = cc (h.0)

claim_from-drained :
    (worker_id : String) (now : ℕ) (sources run_index : List String) (files : List File)
    → Orderly run_index files
    → Covered sources files
    → (claim_from worker_id now sources files).0 ≡ none
    → names_in queued (claim_from worker_id now sources files).1 ≡ []
claim_from-drained worker_id now [] run_index files sound covered h =
    ap (λ r. names_in queued r.1) (claim_from-none worker_id now files)
    ∙ nothing_covered (names_in queued files) covered
claim_from-drained worker_id now (name ∷ sources) run_index files sound covered h =
    elim (Result-cases (read (lookup queued name files))) [
      | inl (job, found) ↦
          cc (ap (λ r. r.0) (claim_from-found worker_id now name sources files job found), h)
      | inr (raised, found) ↦
          let step = claim_from-passed worker_id now name sources files raised found in
          rw step (
            claim_from-drained worker_id now sources run_index (set_aside name files)
              (rw (set_aside-records name files sound.0) sound)
              (set_aside-Covered name sources files sound.0 covered) (rw step at h))
    ]

-- From a state in which names are unique and each record is under its own id, a claim that returns
-- without an error and without a job leaves `queued` empty.
pub claim-drained :
    (worker_id : String) (now : ℕ) (q : Queue)
    → Orderly q.run_index q.files
    → (claim worker_id now q).0 ≡ ok none
    → names_in queued (claim worker_id now q).1.files ≡ []
claim-drained worker_id now q sound h = elim (Bool-cases (is_bad_worker worker_id)) [
  | inl bad ↦ cc (ap (λ r. r.0) (claim-bad worker_id now q bad), h)
  | inr fine ↦
      let step = claim-fine worker_id now q fine in
      rw step (
        claim_from-drained worker_id now (sort_names (names_in queued q.files)) q.run_index q.files
          sound (sort_names-covers (names_in queued q.files)) (ok-injective (rw step at h)))
]
