-- ===== src/Queue/Records.antt =====
-- The jobs that a file tree of v2/src/footballai_v2/execution/queue/local_filesystem.py holds,
-- whatever directories they stand in, and the file operations that keep them.
use technical_test_mitus_ai.Prelude.{
  String, ◌≡◌, refl, sym, ap, ◌∙◌, true, false, some, List, [], ◌∷◌, ◌==◌, nat_eq, string_eq, inl,
  inr, contains, Distinct, Bool-cases, text_eq_iff, arith, &&_iff, text_eq_refl, nat_eq_iff,
}
use technical_test_mitus_ai.Queue.Jobs.{ExecutionJob, unstamp}
use technical_test_mitus_ai.Queue.Files.{
  Place, place_number, place_eq, Entry, unreadable, readable, File, at, exists, lookup, unlink,
  relabel, os_replace, write_replace, move_raw,
}

-- An entry without its claim.
abbrev pub identity : Entry → Entry
identity unreadable = unreadable
identity (readable job) = readable (unstamp job)

abbrev pub Record : Type 0
Record = String × Entry

-- Every file's name and entry, without directories and claims.
abbrev pub records : List File → List Record
records [] = []
records (f ∷ files) = (f.name, identity f.content) ∷ records files

abbrev pub name_of : Record → String
name_of (n, e) = n

abbrev pub names : List Record → List String
names [] = []
names (r ∷ rs) = name_of r ∷ names rs

exists-contains :
    (p : Place) (n : String) (files : List File)
    → exists p n files ≡ true
    → contains (names (records files)) n ≡ true
unfolding exists contains
exists-contains p n [] h = cc
exists-contains p n (f ∷ files) h = ground (arith, exists-contains p n files)

pub absent_of :
    (p : Place) (n : String) (files : List File)
    → contains (names (records files)) n ≡ false
    → exists p n files ≡ false
absent_of p n files h = elim (Bool-cases (exists p n files)) [
  | inl here ↦ cc (exists-contains p n files here, h)
  | inr gone ↦ gone
]

pub at-name : (p : Place) (n : String) (f : File) → at p n f ≡ true → f.name ≡ n
at-name p n f h = (text_eq_iff f.name n).0 ((&&_iff (f.place == p) (f.name == n)).0 h).1

pub place-apart :
    (p p' : Place) (n : String) (f : File)
    → p == p' ≡ false
    → at p n f ≡ true
    → f.place == p' ≡ false
place-apart p p' n f other h = elim (Bool-cases (f.place == p')) [
  | inl same ↦
      let mine =
        (nat_eq_iff (place_number f.place) (place_number p)).0
          ((&&_iff (f.place == p) (f.name == n)).0 h).0 in
      let theirs = (nat_eq_iff (place_number f.place) (place_number p')).0 same in
      cc ((nat_eq_iff (place_number p) (place_number p')).1 (sym mine ∙ theirs), other)
  | inr away ↦ away
]

-- A name in one directory is in no other.
pub exists-apart :
    (p p' : Place) (n : String) (files : List File)
    → Distinct (names (records files))
    → p == p' ≡ false
    → exists p n files ≡ true
    → exists p' n files ≡ false
unfolding exists
exists-apart p p' n [] d other h = cc
exists-apart p p' n (f ∷ files) d other h = elim (Bool-cases (at p n f)) [
  | inl here ↦
      rw (place-apart p p' n f other here) (absent_of p' n files (rw (← at-name p n f here) d.0))
  | inr there ↦
      let later = exists-apart p p' n files d.1 other (rw there at h) in
      elim (Bool-cases (at p' n f)) [
        | inl here ↦ cc (
          ap (contains (names (records files))) (at-name p' n f here),
          exists-contains p n files (rw there at h),
          d.0,
        )
        | inr away ↦ rw away later
      ]
]

pub unlink-absent :
    (p : Place) (n : String) (files : List File)
    → exists p n files ≡ false
    → unlink p n files ≡ files
unfolding exists unlink
unlink-absent p n [] h = refl
unlink-absent p n (f ∷ files) h = let rest = unlink-absent p n files (ground arith) in ground arith

relabel-records :
    (p p' : Place) (n : String) (files : List File)
    → records (relabel p n p' n files) ≡ records files
unfolding relabel
relabel-records p p' n [] = refl
relabel-records p p' n (f ∷ files) = elim (Bool-cases (at p n f)) [
  | inl here ↦ rw here (
      ap (λ m. (m, identity f.content) ∷ records (relabel p n p' n files))
        (sym (at-name p n f here))
      ∙ ap (λ rs. (f.name, identity f.content) ∷ rs) (relabel-records p p' n files))
  | inr there ↦
      rw there (ap (λ rs. (f.name, identity f.content) ∷ rs) (relabel-records p p' n files))
]

-- Renaming a file into another directory keeps the records.
pub os_replace-records :
    (p p' : Place) (n : String) (files : List File)
    → exists p' n files ≡ false
    → records (os_replace p n p' n files) ≡ records files
unfolding os_replace
os_replace-records p p' n files free =
    rw (unlink-absent p' n files free) (relabel-records p p' n files)

pub move_raw-records :
    (p p' : Place) (n : String) (files : List File)
    → Distinct (names (records files))
    → p' == p ≡ false
    → records (move_raw p n p' n files) ≡ records files
unfolding move_raw
move_raw-records p p' n files d other = elim (Bool-cases (exists p' n files)) [
  | inl taken ↦
      rw taken (ap records (unlink-absent p n files (exists-apart p' p n files d other taken)))
  | inr free ↦ rw free (os_replace-records p p' n files free)
]

not_first :
    (p : Place) (n : String) (f : File) (files : List File)
    → exists p n (f ∷ files) ≡ false
    → (at p n f ≡ false) × (exists p n files ≡ false)
unfolding exists
not_first p n f files h = elim (Bool-cases (at p n f)) [
  | inl here ↦ cc (rw here at h)
  | inr there ↦ (there, rw there at h)
]

pub move_raw-free :
    (p p' : Place) (n n' : String) (files : List File)
    → exists p' n' files ≡ false
    → move_raw p n p' n' files ≡ os_replace p n p' n' files
unfolding move_raw
move_raw-free p p' n n' files free = rw free refl

write_replace-absent :
    (p : Place) (n : String) (job : ExecutionJob) (files : List File)
    → exists p n files ≡ false
    → write_replace p n job files ≡ files
unfolding exists write_replace
write_replace-absent p n job [] h = refl
write_replace-absent p n job (f ∷ files) h =
    let away = not_first p n f files h in
    rw away.0 (ap (λ fs. f ∷ fs) (write_replace-absent p n job files away.1))

-- Rewriting a record with other claim fields keeps the records.
pub write_replace-records :
    (p : Place) (n : String) (job old : ExecutionJob) (files : List File)
    → Distinct (names (records files))
    → lookup p n files ≡ some (readable old)
    → unstamp job ≡ unstamp old
    → records (write_replace p n job files) ≡ records files
unfolding write_replace
write_replace-records p n job old [] d h same = refl
write_replace-records p n job old (f ∷ files) d h same = elim (Bool-cases (at p n f)) [
  | inl here ↦
      let mine : f.content ≡ readable old = cc (rw here at h) in
      rw here (
        rw
          (write_replace-absent p n job files (absent_of p n files (rw (← at-name p n f here) d.0)))
          (rw mine (ap (λ j. (f.name, readable j) ∷ records files) same)))
  | inr there ↦ rw there (
      ap (λ rs. (f.name, identity f.content) ∷ rs)
        (write_replace-records p n job old files d.1 (rw there at h) same))
]

at_self :
    (p : Place) (n : String) (e : Entry)
    → at p n (record { place = p; name = n; content = e }) ≡ true
at_self p n e =
    (&&_iff (p == p) (n == n)).1
      ((nat_eq_iff (place_number p) (place_number p)).1 refl, text_eq_refl n)

lookup-relabel :
    (p p' : Place) (n : String) (e : Entry) (files : List File)
    → exists p' n files ≡ false
    → lookup p n files ≡ some e
    → lookup p' n (relabel p n p' n files) ≡ some e
unfolding relabel
lookup-relabel p p' n e [] free h = cc
lookup-relabel p p' n e (f ∷ files) free h =
    let away = not_first p' n f files free in
    elim (Bool-cases (at p n f)) [
      | inl here ↦ rw here (rw (at_self p' n f.content) (rw here at h))
      | inr there ↦ rw there (rw away.0 (lookup-relabel p p' n e files away.1 (rw there at h)))
    ]

-- A renamed file keeps its entry.
pub lookup-os_replace :
    (p p' : Place) (n : String) (e : Entry) (files : List File)
    → exists p' n files ≡ false
    → lookup p n files ≡ some e
    → lookup p' n (os_replace p n p' n files) ≡ some e
unfolding os_replace
lookup-os_replace p p' n e files free h =
    rw (unlink-absent p' n files free) (lookup-relabel p p' n e files free h)

pub lookup-exists :
    (p : Place) (n : String) (e : Entry) (files : List File)
    → lookup p n files ≡ some e
    → exists p n files ≡ true
unfolding exists
lookup-exists p n e [] h = cc
lookup-exists p n e (f ∷ files) h = elim (Bool-cases (at p n f)) [
  | inl here ↦ rw here refl
  | inr there ↦ rw there (lookup-exists p n e files (rw there at h))
]
