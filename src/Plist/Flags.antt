-- ===== src/Plist/Flags.antt =====
-- `extractRunFlags` of plist_darwin.go on arguments that it has extracted.
use touchid_agent.Prelude.{
  true, false, List, [], ◌∷◌, ◌≡◌, refl, ap, ◌∙◌, arith, Bool-cases, inl, inr, if◌then◌else◌,
}
use touchid_agent.Text.{Text, codes, equal}
use touchid_agent.Plist.{is_preserved, takes_value, run_flags, extract_run_flags}

run_flags-value :
    (a v : Text) (rest : List Text)
    → is_preserved a ≡ true
    → takes_value a ≡ true
    → run_flags (a ∷ v ∷ rest) ≡ a ∷ v ∷ run_flags rest
unfolding run_flags
run_flags-value a v rest p t = rw (p, t)

run_flags-switch :
    (a : Text) (rest : List Text)
    → is_preserved a ≡ true
    → takes_value a ≡ false
    → run_flags (a ∷ rest) ≡ a ∷ run_flags rest
unfolding run_flags
run_flags-switch a [] p t = rw (p, t)
run_flags-switch a (v ∷ rest) p t = rw (p, t)

run_flags-skipped :
    (a : Text) (v : Text) (rest : List Text)
    → is_preserved a ≡ false
    → run_flags (a ∷ v ∷ rest) ≡ (if takes_value a then run_flags rest else run_flags (v ∷ rest))
unfolding run_flags
run_flags-skipped a v rest p = rw p

abbrev Settled : List Text → Type 0
Settled args = run_flags (run_flags args) ≡ run_flags args

value-Settled :
    (a v : Text) (rest : List Text)
    → is_preserved a ≡ true
    → takes_value a ≡ true
    → Settled rest
    → Settled (a ∷ v ∷ rest)
value-Settled a v rest p t h =
    rw (run_flags-value a v rest p t)
      (run_flags-value a v (run_flags rest) p t ∙ ap (λ r. a ∷ v ∷ r) h)

switch-Settled :
    (a : Text) (rest : List Text)
    → is_preserved a ≡ true
    → takes_value a ≡ false
    → Settled rest
    → Settled (a ∷ rest)
switch-Settled a rest p t h =
    rw (run_flags-switch a rest p t) (run_flags-switch a (run_flags rest) p t ∙ ap (λ r. a ∷ r) h)

last-Settled : (a : Text) → Settled (a ∷ [])
unfolding run_flags
last-Settled a = ground arith

run_flags-Settled : (args : List Text) → Settled args
run_flags-Settled [] = unfold run_flags in refl
run_flags-Settled (a ∷ []) = last-Settled a
run_flags-Settled (a ∷ v ∷ rest) = elim (Bool-cases (is_preserved a)) [
  | inl p ↦ elim (Bool-cases (takes_value a)) [
    | inl t ↦ value-Settled a v rest p t (run_flags-Settled rest)
    | inr t ↦ switch-Settled a (v ∷ rest) p t (run_flags-Settled (v ∷ rest))
  ]
  | inr p ↦ elim (Bool-cases (takes_value a)) [
    | inl t ↦ rw (run_flags-skipped a v rest p, t) (run_flags-Settled rest)
    | inr t ↦ rw (run_flags-skipped a v rest p, t) (run_flags-Settled (v ∷ rest))
  ]
]

launchd_skipped : (args : List Text) → run_flags (codes "-launchd" ∷ args) ≡ run_flags args
unfolding run_flags is_preserved takes_value equal
launchd_skipped [] = refl
launchd_skipped (v ∷ rest) = refl

-- The flags that `extractRunFlags` takes from any arguments stay as they are when the arguments of the
-- migrated plist, those flags behind its binary and `-launchd`, are migrated again.
pub extract_run_flags_stable :
    (args : List Text) (binary : Text)
    → extract_run_flags (binary ∷ codes "-launchd" ∷ extract_run_flags args)
      ≡ extract_run_flags args
unfolding extract_run_flags
extract_run_flags_stable [] binary = launchd_skipped [] ∙ unfold run_flags in refl
extract_run_flags_stable (own ∷ args) binary =
    launchd_skipped (run_flags args) ∙ run_flags-Settled args
