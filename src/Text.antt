-- ===== src/Text.antt =====
-- Go's strings as lists of code points, and the functions of the packages `strings` and `unicode`
-- that the program calls. A literal of the source is `codes "..."`.
pub mod Trim
pub mod Search
pub mod Split
use Prim.Native.Char.{code}
use touchid_agent.Prelude.{
  ℕ, ◌+◌, ◌-◌, Bool, true, false, ◌&&◌, ◌||◌, List, [], ◌∷◌, ◌++◌, Option, none, some, String, map,
  ◌≡◌, ◌↔◌, refl, arith, leb, ◌==◌, if◌then◌else◌,
}

abbrev pub Text : Type 0
Text = List ℕ

abbrev pub codes : String → Text
codes String.[] = []
codes (String.◌∷◌ c s) = code c ∷ codes s

-- `==` on strings
unfoldable pub equal : Text → Text → Bool
equal [] [] = true
equal (x ∷ xs) (y ∷ ys) = x == y && equal xs ys
equal _ _ = false

pub equal_iff : (a b : Text) → (equal a b ≡ true) ↔ (a ≡ b)
unfolding equal
equal_iff (x ∷ a) (y ∷ b) = ground (arith, equal_iff a b)
equal_iff _ _ = ground arith

pub equal_refl : (a : Text) → equal a a ≡ true
equal_refl a = (equal_iff a a).1 refl

-- `s == ""`
unfoldable pub is_empty : Text → Bool
is_empty [] = true
is_empty (c ∷ s) = false

-- strings.HasPrefix
unfoldable pub has_prefix : Text → Text → Bool
has_prefix s [] = true
has_prefix [] (p ∷ ps) = false
has_prefix (c ∷ s) (p ∷ ps) = c == p && has_prefix s ps

-- strings.Contains, and strings.ContainsRune for one code point
unfoldable pub contains : Text → Text → Bool
unfolding has_prefix
contains [] sub = has_prefix [] sub
contains (c ∷ s) sub = has_prefix (c ∷ s) sub || contains s sub

unfoldable pub contains_rune : Text → ℕ → Bool
contains_rune [] r = false
contains_rune (c ∷ s) r = c == r || contains_rune s r

-- unicode.IsSpace
unfoldable pub is_space : ℕ → Bool
is_space c =
    (leb 9 c && leb c 13)
    || c == 32
    || c == 0x85
    || c == 0xa0
    || c == 0x1680
    || (leb 0x2000 c && leb c 0x200a)
    || c == 0x2028
    || c == 0x2029
    || c == 0x202f
    || c == 0x205f
    || c == 0x3000

-- strings.TrimSpace, from both ends
unfoldable pub trim_left : Text → Text
trim_left [] = []
trim_left (c ∷ s) = let rest = trim_left s in if is_space c then rest else c ∷ s

cons_trimmed : ℕ → Text → Text
cons_trimmed c [] = if is_space c then [] else c ∷ []
cons_trimmed c (d ∷ s) = c ∷ d ∷ s

unfoldable pub trim_right : Text → Text
unfolding cons_trimmed
trim_right [] = []
trim_right (c ∷ s) = cons_trimmed c (trim_right s)

unfoldable pub trim_space : Text → Text
trim_space s = trim_right (trim_left s)

pub extend_before : ℕ → Option (Text × Text) → Option (Text × Text)
extend_before c none = none
extend_before c (some (before, after)) = some (c ∷ before, after)

-- strings.Cut at a separator of one character: the text before and behind it, if it occurs
unfoldable pub cut : Text → ℕ → Option (Text × Text)
unfolding extend_before
cut [] sep = none
cut (c ∷ s) sep = if c == sep then some ([], s) else extend_before c (cut s sep)

-- strings.ToLower, on the code points whose lower case is ASCII (A to Z, the dotted I and the
-- Kelvin sign); the program compares the result with ASCII words only, which no other letter gives.
unfoldable pub lower_rune : ℕ → ℕ
lower_rune c =
    if leb b'A' c && leb c b'Z'
    then c + 32
    else if c == 0x130
    then b'i'
    else if c == 0x212a
    then b'k'
    else c

abbrev pub to_lower : Text → Text
to_lower s = map lower_rune s

-- strings.EqualFold where one text is ASCII, as a hash in hexadecimal is: the code points that fold
-- to an ASCII letter are the two cases of it, the long s and the Kelvin sign.
unfoldable pub fold_rune : ℕ → ℕ
fold_rune c =
    if leb b'A' c && leb c b'Z'
    then c + 32
    else if c == 0x17f
    then b's'
    else if c == 0x212a
    then b'k'
    else c

unfoldable pub equal_fold : Text → Text → Bool
equal_fold a b = equal (map fold_rune a) (map fold_rune b)

-- strings.Split at a separator of one character; bufio.ScanLines is another function.
pub cut_piece : ℕ → ℕ → List Text → List Text
cut_piece c sep [] = (c ∷ []) ∷ []
cut_piece c sep (p ∷ ps) = if c == sep then [] ∷ p ∷ ps else (c ∷ p) ∷ ps

unfoldable pub split : Text → ℕ → List Text
unfolding cut_piece
split [] sep = [] ∷ []
split (c ∷ s) sep = cut_piece c sep (split s sep)
