-- ===== src/FilePath.antt =====
-- path/filepath on a Unix system: `Base`, `Clean` and `Join`.
pub mod Names
pub mod Clean
use touchid_agent.Prelude.{
  ℕ, Bool, true, false, not, ◌&&◌, ◌||◌, List, [], ◌∷◌, ◌++◌, Option, none, some, ◌==◌,
  if◌then◌else◌,
}
use touchid_agent.Text.{Text, codes, equal, is_empty, split}

abbrev pub slash : ℕ
slash = b'/'

-- The last piece between slashes that is not empty.
pub last_piece : List Text → Option Text
last_piece [] = none
last_piece (p ∷ ps) = elim (last_piece ps) [
  | some q ↦ some q
  | none ↦ if is_empty p then none else some p
]

pub base_or : Text → Option Text → Text
base_or path (some piece) = piece
base_or [] none = codes "."
base_or (c ∷ s) none = codes "/"

-- Trailing slashes are dropped; then the text behind the last slash; "/" for slashes only.
unfoldable pub base : Text → Text
unfolding last_piece base_or
base path = base_or path (last_piece (split path slash))

-- `Clean`, one piece at a time; the pieces kept so far stand in reverse.
pub clean_piece : Bool → Text → List Text → List Text
clean_piece rooted p [] =
    if is_empty p || equal p (codes ".")
    then []
    else if equal p (codes "..") && rooted
    then []
    else p ∷ []
clean_piece rooted p (q ∷ kept) =
    if is_empty p || equal p (codes ".")
    then q ∷ kept
    else if equal p (codes "..")
    then (if equal q (codes "..") then p ∷ q ∷ kept else kept)
    else p ∷ q ∷ kept

pub clean_pieces : Bool → List Text → List Text → List Text
clean_pieces rooted [] kept = kept
clean_pieces rooted (p ∷ ps) kept = clean_pieces rooted ps (clean_piece rooted p kept)

-- Pieces in reverse, with a slash between each two.
pub joined : List Text → Text
joined [] = []
joined (p ∷ []) = p
joined (p ∷ q ∷ ps) = joined (q ∷ ps) ++ slash ∷ p

pub is_rooted : Text → Bool
is_rooted [] = false
is_rooted (c ∷ s) = c == slash

pub cleaned : Bool → List Text → Text
cleaned true kept = slash ∷ joined kept
cleaned false [] = codes "."
cleaned false (p ∷ kept) = joined (p ∷ kept)

unfoldable pub clean : Text → Text
unfolding clean_piece clean_pieces joined is_rooted cleaned
clean path = cleaned (is_rooted path) (clean_pieces (is_rooted path) (split path slash) [])

-- `Join` of two elements, of which the second is not empty.
unfoldable pub join : Text → Text → Text
join dir name = if is_empty dir then clean name else clean (dir ++ slash ∷ name)
