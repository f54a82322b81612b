-- ===== src/Text/Split.antt =====
-- Splitting a text that ends in a piece without separators.
use touchid_agent.Prelude.{
  ℕ, List, [], ◌∷◌, ◌++◌, ◌≡◌, ◌≢◌, refl, arith, ◌==◌, All, Bool-cases, inl, inr,
}
use touchid_agent.Text.{Text, split, cut_piece}

module _ (sep : ℕ) where
  abbrev pub Lacks : Text → Type 0
  Lacks s = All (λ c. c ≢ sep) s

  pub split-Lacks : (name : Text) → Lacks name → split name sep ≡ name ∷ []
  unfolding split
  split-Lacks [] h = refl
  split-Lacks (c ∷ name) (n, h) = rw (split-Lacks name h) (unfold cut_piece in ground arith)

  -- A sep before a piece without sepes is where the last piece begins.
  cut_piece-last :
      (c : ℕ) (p : Text) (ps : List Text) (name : Text)
      → cut_piece c sep (p ∷ (ps ++ name ∷ [])) ≡ cut_piece c sep (p ∷ ps) ++ name ∷ []
  unfolding cut_piece
  cut_piece-last c p ps name = ground arith

  split_cons : (s : Text) → (p : Text) × (ps : List Text) × (split s sep ≡ p ∷ ps)
  unfolding split cut_piece
  split_cons [] = ([], [], refl)
  split_cons (c ∷ s) =
      let (p, ps, e) = split_cons s in
      elim (Bool-cases (c == sep)) [
        | inl b ↦ ([], p ∷ ps, rw (e, b))
        | inr b ↦ (c ∷ p, ps, rw (e, b))
      ]

  pub split-append :
      (x name : Text) → Lacks name → split (x ++ sep ∷ name) sep ≡ split x sep ++ name ∷ []
  unfolding split
  split-append [] name h = rw (split-Lacks name h) (unfold cut_piece in ground arith)
  split-append (c ∷ x) name h =
      let (p, ps, e) = split_cons x in rw (split-append x name h, e) (cut_piece-last c p ps name)
