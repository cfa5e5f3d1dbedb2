-- ===== src/Flags/Frozen.antt =====
-- src/services/flags.ts: the flags that no call changes.
use poolstatis.Common.{
  ◌≡◌, subst, inl, inr, true, false, none, some, String, List, [], ◌∷◌, Map, get, set, get-set,
  str_eq, eq_iff, Bool-cases, Option-cases, if_elim,
}
use poolstatis.Flags.Table.{
  archived, Flag, Experiment, Answer, committed, create, has_running, Patch, patched,
  archived_status, update_found, update, archive_found, archive,
}

pub data Call : Type 0 where
  creates : String → Flag → Call
  updates : String → Patch → Call
  archives : String → Call

unfoldable pub step : List Experiment → Call → Map Flag → Map Flag
step experiments (creates key f) flags = committed flags (create key f flags)
step experiments (updates key p) flags = committed flags (update experiments key p flags)
step experiments (archives key) flags = committed flags (archive experiments key flags)

unfoldable pub run : List Experiment → List Call → Map Flag → Map Flag
run experiments [] flags = flags
run experiments (c ∷ cs) flags = run experiments cs (step experiments c flags)

-- The flag under a key is the same.
abbrev Keeps : Map Flag → String → Flag → Type 0
Keeps flags key f = get flags key ≡ some f

set-other :
    (flags : Map Flag) (j key : String) (g f : Flag)
    → str_eq j key ≡ false
    → Keeps flags key f
    → Keeps (set flags j g) key f
set-other flags j key g f e h = rw (get-set flags j key g, e) h

create-Keeps :
    (j key : String) (g f : Flag) (flags : Map Flag)
    → Keeps flags key f
    → Keeps (committed flags (create j g flags)) key f
unfolding create committed
create-Keeps j key g f flags h = elim (Option-cases (get flags j)) [
  | inl e ↦
      rw (e, create)
        (elim (Bool-cases (str_eq j key)) [
          | inl k ↦
              let e' = subst (λ (x : String). get flags x ≡ none) ((eq_iff j key).0 k) e in
              absurd cc
          | inr k ↦ set-other flags j key g f k h
        ])
  | inr (_, e) ↦ rw (e, create) h
]

-- A key with a running experiment lets neither an update nor an archival through.
update-Keeps :
    (experiments : List Experiment) (j key : String) (p : Patch) (f : Flag) (flags : Map Flag)
    → has_running experiments key ≡ true
    → Keeps flags key f
    → Keeps (committed flags (update experiments j p flags)) key f
unfolding update update_found committed
update-Keeps experiments j key p f flags r h = elim (Option-cases (get flags j)) [
  | inl e ↦ rw (e, update) h
  | inr (g, e) ↦
      rw (e, update)
        (if_elim (λ (a : Answer Flag). Keeps (committed flags a) key f) (archived_status g.status)
          (λ _. h)
          (λ _.
            if_elim (λ (a : Answer Flag). Keeps (committed flags a) key f)
              (has_running experiments j) (λ _. h)
              (λ n. elim (Bool-cases (str_eq j key)) [
                | inl k ↦
                    let n' =
                      subst (λ (x : String). has_running experiments x ≡ false) ((eq_iff j key).0 k)
                        n in
                    absurd cc
                | inr k ↦ set-other flags j key (patched p g) f k h
              ])))
]

archive-Keeps :
    (experiments : List Experiment) (j key : String) (f : Flag) (flags : Map Flag)
    → has_running experiments key ≡ true
    → Keeps flags key f
    → Keeps (committed flags (archive experiments j flags)) key f
unfolding archive archive_found committed
archive-Keeps experiments j key f flags r h = elim (Option-cases (get flags j)) [
  | inl e ↦ rw (e, archive) h
  | inr (g, e) ↦
      rw (e, archive)
        (if_elim (λ (a : Answer Flag). Keeps (committed flags a) key f) (has_running experiments j)
          (λ _. h)
          (λ n. elim (Bool-cases (str_eq j key)) [
            | inl k ↦
                let n' =
                  subst (λ (x : String). has_running experiments x ≡ false) ((eq_iff j key).0 k)
                    n in
                absurd cc
            | inr k ↦ set-other flags j key (record g { status = archived }) f k h
          ]))
]

-- While an experiment runs on a flag, no creations, updates and archivals change anything of the flag.
pub run-frozen :
    (experiments : List Experiment) (cs : List Call) (flags : Map Flag) (key : String) (f : Flag)
    → has_running experiments key ≡ true
    → get flags key ≡ some f
    → get (run experiments cs flags) key ≡ some f
unfolding run step
run-frozen experiments [] flags key f r h = h
run-frozen experiments (creates j g ∷ cs) flags key f r h =
    run-frozen experiments cs _ key f r (create-Keeps j key g f flags h)
run-frozen experiments (updates j p ∷ cs) flags key f r h =
    run-frozen experiments cs _ key f r (update-Keeps experiments j key p f flags r h)
run-frozen experiments (archives j ∷ cs) flags key f r h =
    run-frozen experiments cs _ key f r (archive-Keeps experiments j key f flags r h)
