-- ===== src/Audit/Scan.antt =====
-- bufio.ScanLines: a text as its lines, and back.
use touchid_agent.Prelude.{
  ℕ, List, [], ◌∷◌, ◌++◌, append_assoc, ◌≡◌, ◌≢◌, refl, ap, arith, ◌==◌, All, if◌then◌else◌,
}

abbrev pub Bytes : Type 0
Bytes = List ℕ

abbrev pub newline : ℕ
newline = b'\n'

abbrev pub carriage_return : ℕ
carriage_return = b'\r'

onto_line : ℕ → List Bytes → List Bytes
onto_line c [] = (c ∷ []) ∷ []
onto_line c (l ∷ ls) = (c ∷ l) ∷ ls

-- The pieces between newlines; nothing behind the last newline is no line.
unfoldable pub raw_lines : Bytes → List Bytes
unfolding onto_line
raw_lines [] = []
raw_lines (c ∷ s) = let rest = raw_lines s in if c == newline then [] ∷ rest else onto_line c rest

cons_cr : ℕ → Bytes → Bytes → Bytes
cons_cr c [] kept = if c == carriage_return then [] else c ∷ []
cons_cr c (d ∷ s) kept = c ∷ kept

-- A carriage return at the end of a line is not part of it.
unfoldable pub drop_cr : Bytes → Bytes
unfolding cons_cr
drop_cr [] = []
drop_cr (c ∷ s) = cons_cr c s (drop_cr s)

-- Each line with its newline.
unfoldable pub render : List Bytes → Bytes
render [] = []
render (l ∷ ls) = l ++ newline ∷ render ls

pub render-append : (ls ms : List Bytes) → render (ls ++ ms) ≡ render ls ++ render ms
unfolding render
render-append [] ms = refl
render-append (l ∷ ls) ms = simp (render-append ls ms, append_assoc)

pub render_one : (l : Bytes) → render (l ∷ []) ≡ l ++ newline ∷ []
unfolding render
render_one l = refl

pub raw_lines-append :
    (l s : Bytes) → All (λ b. b ≢ newline) l → raw_lines (l ++ newline ∷ s) ≡ l ∷ raw_lines s
unfolding raw_lines
raw_lines-append [] s h = refl
raw_lines-append (c ∷ l) s (n, h) = rw (raw_lines-append l s h) (ground arith)

pub raw_lines-render :
    (ls : List Bytes) → All (All (λ b. b ≢ newline)) ls → raw_lines (render ls) ≡ ls
unfolding render
raw_lines-render [] h = unfold raw_lines in refl
raw_lines-render (l ∷ ls) (n, h) =
    rw (raw_lines-append l (render ls) n) (ap (λ t. l ∷ t) (raw_lines-render ls h))

-- A line that ends in another byte is kept whole.
pub drop_cr-closed : (body : Bytes) → drop_cr (body ++ b'}' ∷ []) ≡ body ++ b'}' ∷ []
unfolding drop_cr
drop_cr-closed [] = refl
drop_cr-closed (c ∷ []) = refl
drop_cr-closed (c ∷ d ∷ body) = ap (λ t. c ∷ t) (drop_cr-closed (d ∷ body))
