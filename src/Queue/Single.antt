-- ===== src/Queue/Single.antt =====
-- The jobs of v2/src/footballai_v2/execution/queue/local_filesystem.py by their runs: one file for each.
use technical_test_mitus_ai.Prelude.{
  String, ◌≡◌, refl, sym, ap, ◌∙◌, inl, inr, true, false, some, List, [], ◌∷◌, ◌==◌, nat_eq,
  string_eq, contains, Distinct, Bool-cases, text_eq_refl,
}
use technical_test_mitus_ai.Queue.Jobs.{ExecutionJob}
use technical_test_mitus_ai.Queue.Files.{
  Place, place_eq, Entry, unreadable, readable, File, at, lookup,
}
use technical_test_mitus_ai.Queue.Records.{Record, records, identity, at-name}
use technical_test_mitus_ai.Queue.Service.{run_ids, or_true}

module _ (n : String) (rs : List Record) where
  ids_later :
      (e : Entry) (run_id : String)
      → contains (run_ids rs) run_id ≡ true
      → contains (run_ids ((n, identity e) ∷ rs)) run_id ≡ true
  unfolding contains
  ids_later unreadable run_id h = h
  ids_later (readable job) run_id h = rw h (or_true (job.run_id == run_id))

  ids_first :
      (e : Entry) (job : ExecutionJob)
      → e ≡ readable job
      → contains (run_ids ((n, identity e) ∷ rs)) job.run_id ≡ true
  unfolding contains
  ids_first unreadable job same = cc
  ids_first (readable first) job same =
      let mine : first ≡ job = cc in
      rw (ap (λ (j : ExecutionJob). j.run_id) mine, text_eq_refl job.run_id) refl

  apart_later : (e : Entry) → Distinct (run_ids ((n, identity e) ∷ rs)) → Distinct (run_ids rs)
  apart_later unreadable d = d
  apart_later (readable job) d = d.1

  apart_first :
      (e : Entry) (job : ExecutionJob)
      → e ≡ readable job
      → Distinct (run_ids ((n, identity e) ∷ rs))
      → contains (run_ids rs) job.run_id ≡ false
  apart_first unreadable job same d = cc
  apart_first (readable first) job same d =
      let mine : first ≡ job = cc in rw (← ap (λ (j : ExecutionJob). j.run_id) mine) d.0

lookup-run_id :
    (p : Place) (n : String) (job : ExecutionJob) (files : List File)
    → lookup p n files ≡ some (readable job)
    → contains (run_ids (records files)) job.run_id ≡ true
lookup-run_id p n job [] h = cc
lookup-run_id p n job (f ∷ files) h = elim (Bool-cases (at p n f)) [
  | inl here ↦
      let mine : f.content ≡ readable job = cc (rw here at h) in
      ids_first f.name (records files) f.content job mine
  | inr there ↦
      ids_later f.name (records files) f.content job.run_id
        (lookup-run_id p n job files (rw there at h))
]

-- Two readable files of one run are one file.
pub one_name :
    (p p' : Place) (n n' : String) (job job' : ExecutionJob) (files : List File)
    → Distinct (run_ids (records files))
    → lookup p n files ≡ some (readable job)
    → lookup p' n' files ≡ some (readable job')
    → job.run_id ≡ job'.run_id
    → n ≡ n'
one_name p p' n n' job job' [] d h h' same = cc
one_name p p' n n' job job' (f ∷ files) d h h' same =
    let rs = records files in
    elim (Bool-cases (at p n f)) [
      | inl here ↦
          let mine : f.content ≡ readable job = cc (rw here at h) in
          elim (Bool-cases (at p' n' f)) [
            | inl here' ↦ sym (at-name p n f here) ∙ at-name p' n' f here'
            | inr there' ↦ cc (
              apart_first f.name rs f.content job mine d,
              rw (← same) at (lookup-run_id p' n' job' files (rw there' at h')),
            )
          ]
      | inr there ↦ elim (Bool-cases (at p' n' f)) [
        | inl here' ↦
            let theirs : f.content ≡ readable job' = cc (rw here' at h') in
            cc (
              apart_first f.name rs f.content job' theirs d,
              rw same at (lookup-run_id p n job files (rw there at h)),
            )
        | inr there' ↦
            one_name p p' n n' job job' files (apart_later f.name rs f.content d) (rw there at h)
              (rw there' at h') same
      ]
    ]
