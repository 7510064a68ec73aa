-- ===== src/Queue/Presence.antt =====
-- Which files the calls of v2/src/footballai_v2/execution/queue/local_filesystem.py on the file tree keep.
use technical_test_mitus_ai.Prelude.{
  String, ◌≡◌, refl, inl, inr, Bool, true, false, List, [], ◌∷◌, ◌==◌, nat_eq, string_eq,
  Bool-cases, ◌||◌,
}
use technical_test_mitus_ai.Queue.Jobs.{ExecutionJob}
use technical_test_mitus_ai.Queue.Files.{
  Place, place_eq, queued, claimed, File, at, exists, unlink, relabel, os_replace, write_replace,
  move_raw,
}
use technical_test_mitus_ai.Queue.Records.{unlink-absent, place-apart}

-- A directory that the queue never takes a file from
abbrev pub Final : Place → Type 0
Final p = (queued == p ≡ false) × (claimed == p ≡ false)

or_later : (a b c : Bool) → (b ≡ true → c ≡ true) → (a || b) ≡ true → (a || c) ≡ true
or_later true b c f h = refl
or_later false b c f h = f h

or_both :
    (a a' b c : Bool)
    → (a ≡ true → a' ≡ true)
    → (b ≡ true → c ≡ true)
    → (a || b) ≡ true
    → (a' || c) ≡ true
or_both true a' b c f g h = rw (f refl) refl
or_both false true b c f g h = refl
or_both false false b c f g h = g h

at-away :
    (p q : Place) (n m : String) (f : File) → p == q ≡ false → at p m f ≡ true → at q n f ≡ false
at-away p q n m f other h = rw (place-apart p q m f other h) refl

exists-relabel :
    (p p' q : Place) (n m m' : String) (files : List File)
    → p == q ≡ false
    → exists q n files ≡ true
    → exists q n (relabel p m p' m' files) ≡ true
unfolding exists relabel
exists-relabel p p' q n m m' [] other h = cc h
exists-relabel p p' q n m m' (f ∷ files) other h =
    let later = exists-relabel p p' q n m m' files other in
    elim (Bool-cases (at p m f)) [
      | inl here ↦ rw here (
          or_both (at q n f) _ (exists q n files) (exists q n (relabel p m p' m' files))
            (λ mine. cc (mine, at-away p q n m f other here)) later h)
      | inr there ↦
          rw there
            (or_later (at q n f) (exists q n files) (exists q n (relabel p m p' m' files)) later h)
    ]

exists-unlink :
    (p q : Place) (n m : String) (files : List File)
    → p == q ≡ false
    → exists q n files ≡ true
    → exists q n (unlink p m files) ≡ true
unfolding exists unlink
exists-unlink p q n m [] other h = cc h
exists-unlink p q n m (f ∷ files) other h =
    let later = exists-unlink p q n m files other in
    elim (Bool-cases (at p m f)) [
      | inl here ↦ rw here (later (rw (at-away p q n m f other here) at h))
      | inr there ↦
          rw there (or_later (at q n f) (exists q n files) (exists q n (unlink p m files)) later h)
    ]

pub exists-write_replace :
    (p q : Place) (n m : String) (job : ExecutionJob) (files : List File)
    → exists q n files ≡ true
    → exists q n (write_replace p m job files) ≡ true
unfolding exists write_replace
exists-write_replace p q n m job [] h = cc h
exists-write_replace p q n m job (f ∷ files) h = elim (Bool-cases (at p m f)) [
  | inl here ↦ rw here (
      or_later (at q n f) (exists q n files) (exists q n (write_replace p m job files))
        (exists-write_replace p q n m job files) h)
  | inr there ↦ rw there (
      or_later (at q n f) (exists q n files) (exists q n (write_replace p m job files))
        (exists-write_replace p q n m job files) h)
]

pub exists-move_raw :
    (p p' q : Place) (n m m' : String) (files : List File)
    → p == q ≡ false
    → exists q n files ≡ true
    → exists q n (move_raw p m p' m' files) ≡ true
unfolding move_raw os_replace
exists-move_raw p p' q n m m' files other h = elim (Bool-cases (exists p' m' files)) [
  | inl taken ↦ rw taken (exists-unlink p q n m files other h)
  | inr free ↦
      rw free (rw (unlink-absent p' m' files free) (exists-relabel p p' q n m m' files other h))
]

pub exists-os_replace :
    (p p' q : Place) (n m m' : String) (files : List File)
    → p == q ≡ false
    → p' == q ≡ false
    → exists q n files ≡ true
    → exists q n (os_replace p m p' m' files) ≡ true
unfolding os_replace
exists-os_replace p p' q n m m' files other other' h =
    exists-relabel p p' q n m m' (unlink p' m' files) other (exists-unlink p' q n m' files other' h)
