-- ===== src/FilePath/Names.antt =====
-- `filepath.Join` of a directory and the name of a file, and `filepath.Base` of that.
use touchid_agent.Prelude.{Bool, true, false, List, [], ◌∷◌, ◌++◌, some, ◌≡◌, Bool-cases, inl, inr}
use touchid_agent.Text.{Text, codes, equal, is_empty, split}
use touchid_agent.Text.Split.{Lacks, split-Lacks, split-append}
use touchid_agent.FilePath.{
  slash, base, base_or, last_piece, join, clean, clean_piece, clean_pieces, joined, is_rooted,
  cleaned,
}

abbrev pub NoSlash : Text → Type 0
NoSlash s = Lacks slash s

last_piece-append :
    (ps : List Text) (name : Text)
    → is_empty name ≡ false
    → last_piece (ps ++ name ∷ []) ≡ some name
unfolding last_piece
last_piece-append [] name f = rw f
last_piece-append (p ∷ ps) name f = rw (last_piece-append ps name f)

base-append :
    (x name : Text) → NoSlash name → is_empty name ≡ false → base (x ++ slash ∷ name) ≡ name
unfolding base
base-append x name h f =
    rw (split-append slash x name h, last_piece-append (split x slash) name f, base_or)

base-NoSlash : (name : Text) → NoSlash name → is_empty name ≡ false → base name ≡ name
unfolding base
base-NoSlash name h f = rw (split-Lacks slash name h, last_piece-append [] name f, base_or)

-- A piece that `Clean` keeps.
pub record IsPlain (name : Text) : Type 0 where
  pub no_slash : NoSlash name
  pub filled : is_empty name ≡ false
  pub not_dot : equal name (codes ".") ≡ false
  pub not_dots : equal name (codes "..") ≡ false

clean_pieces-append :
    (rooted : Bool) (ps : List Text) (kept : List Text) (name : Text)
    → IsPlain name
    → (qs : List Text) × (clean_pieces rooted (ps ++ name ∷ []) kept ≡ name ∷ qs)
unfolding clean_pieces clean_piece
clean_pieces-append rooted [] [] name h = ([], rw (h.filled, h.not_dot, h.not_dots))
clean_pieces-append rooted [] (q ∷ kept) name h = (q ∷ kept, rw (h.filled, h.not_dot, h.not_dots))
clean_pieces-append rooted (p ∷ ps) kept name h =
    clean_pieces-append rooted ps (clean_piece rooted p kept) name h

base-cleaned :
    (rooted : Bool) (name : Text) (qs : List Text)
    → IsPlain name
    → base (cleaned rooted (name ∷ qs)) ≡ name
unfolding cleaned joined
base-cleaned true name [] h = base-append [] name h.no_slash h.filled
base-cleaned false name [] h = base-NoSlash name h.no_slash h.filled
base-cleaned true name (q ∷ qs) h = base-append (slash ∷ joined (q ∷ qs)) name h.no_slash h.filled
base-cleaned false name (q ∷ qs) h = base-append (joined (q ∷ qs)) name h.no_slash h.filled

pub base-join : (dir name : Text) → IsPlain name → base (join dir name) ≡ name
unfolding join clean
base-join dir name h = elim (Bool-cases (is_empty dir)) [
  | inl e ↦
      let (qs, k) = clean_pieces-append (is_rooted name) [] [] name h in
      rw (e, split-Lacks slash name h.no_slash, k) (base-cleaned (is_rooted name) name qs h)
  | inr e ↦
      let rooted = is_rooted (dir ++ slash ∷ name) in
      let (qs, k) = clean_pieces-append rooted (split dir slash) [] name h in
      rw (e, split-append slash dir name h.no_slash, k) (base-cleaned rooted name qs h)
]
