-- ===== src/Text/Trim.antt =====
-- `strings.TrimSpace` on a text that is trimmed.
use touchid_agent.Prelude.{ℕ, false, [], ◌∷◌, ◌≡◌, refl, ap, ◌∙◌, inl, inr, Bool-cases}
use touchid_agent.Text.{Text, is_space, trim_left, trim_right, cons_trimmed, trim_space}

-- The text is empty or begins with no space.
abbrev StartsTight : Text → Type 0
StartsTight [] = Unit
StartsTight (c ∷ s) = is_space c ≡ false

trim_left-StartsTight : (s : Text) → StartsTight (trim_left s)
unfolding trim_left
trim_left-StartsTight [] = tt
trim_left-StartsTight (c ∷ s) = elim (Bool-cases (is_space c)) [
  | inl e ↦ rw e (trim_left-StartsTight s)
  | inr e ↦ rw e e
]

trim_left_tight : (s : Text) → StartsTight s → trim_left s ≡ s
unfolding trim_left
trim_left_tight [] h = refl
trim_left_tight (c ∷ s) h = rw h

cons_trimmed-StartsTight : (c : ℕ) (s : Text) → is_space c ≡ false → StartsTight (cons_trimmed c s)
unfolding cons_trimmed
cons_trimmed-StartsTight c [] h = rw h h
cons_trimmed-StartsTight c (d ∷ s) h = h

trim_right-StartsTight : (s : Text) → StartsTight s → StartsTight (trim_right s)
unfolding trim_right
trim_right-StartsTight [] h = tt
trim_right-StartsTight (c ∷ s) h = cons_trimmed-StartsTight c (trim_right s) h

trim_right-cons_trimmed :
    (c : ℕ) (s : Text) → trim_right s ≡ s → trim_right (cons_trimmed c s) ≡ cons_trimmed c s
unfolding trim_right
trim_right-cons_trimmed c [] h = elim (Bool-cases (is_space c)) [
  | inl e ↦ rw (e, cons_trimmed)
  | inr e ↦ rw (e, cons_trimmed) (rw e)
]
trim_right-cons_trimmed c (d ∷ s) h = ap (cons_trimmed c) h

pub trim_right_idem : (s : Text) → trim_right (trim_right s) ≡ trim_right s
unfolding trim_right
trim_right_idem [] = refl
trim_right_idem (c ∷ s) = trim_right-cons_trimmed c (trim_right s) (trim_right_idem s)

pub trim_space_idem : (s : Text) → trim_space (trim_space s) ≡ trim_space s
unfolding trim_space
trim_space_idem s =
    ap trim_right (
      trim_left_tight (trim_right (trim_left s))
        (trim_right-StartsTight (trim_left s) (trim_left-StartsTight s)))
    ∙ trim_right_idem (trim_left s)
