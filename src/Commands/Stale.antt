-- ===== src/Commands/Stale.antt =====
-- `parseStaleLModeProcesses` and `findStaleLModeProcesses` of main.go: agents on the same socket in the
-- list of processes.
pub mod Found
use touchid_agent.Prelude.{
  ℕ, suc, zero, ◌+◌, ◌*◌, ◌-◌, ℤ, pos, negsuc, Bool, true, false, not, ◌&&◌, ◌||◌, List, [], ◌∷◌,
  ◌++◌, Option, none, some, ◌≡◌, ltb, leb, ◌==◌, if◌then◌else◌, ◌^◌,
}
use touchid_agent.Text.{Text, codes, equal, is_empty, is_space, trim_space, cut, split}
use touchid_agent.FilePath.{base}

-- strings.Fields: the pieces between white space that are not empty. A word that is being read grows at
-- its front.
begin_field : Text → List Text → List Text
begin_field [] fs = fs
begin_field (c ∷ w) fs = (c ∷ w) ∷ fs

-- The word that the text begins with, and the fields behind it.
scan_fields : Text → Text × List Text
unfolding begin_field
scan_fields [] = ([], [])
scan_fields (c ∷ s) =
    let (word, rest) = scan_fields s in
    if is_space c then ([], begin_field word rest) else (c ∷ word, rest)

unfoldable pub fields : Text → List Text
unfolding scan_fields begin_field
fields s = let (word, rest) = scan_fields s in begin_field word rest

-- strconv.Atoi, for numbers that an `int` holds
digit : ℕ → Option ℕ
digit c = if leb b'0' c && leb c b'9' then some (c - b'0') else none

digits_from : ℕ → Text → Option ℕ
unfolding digit
digits_from acc [] = some acc
digits_from acc (c ∷ s) = elim (digit c) [ none ↦ none | some d ↦ digits_from (acc * 10 + d) s ]

-- The digits of a number that is not empty.
unsigned : Text → Option ℕ
unfolding digits_from
unsigned [] = none
unsigned (c ∷ s) = digits_from 0 (c ∷ s)

positive : Option ℕ → Option ℤ
positive none = none
positive (some n) = if ltb n (2 ^ 63) then some (pos n) else none

negative : Option ℕ → Option ℤ
negative none = none
negative (some zero) = some (pos 0)
negative (some (suc n)) = if ltb n (2 ^ 63) then some (negsuc n) else none

unfoldable pub atoi : Text → Option ℤ
unfolding unsigned positive negative
atoi [] = none
atoi (c ∷ s) =
    if c == b'-'
    then negative (unsigned s)
    else if c == b'+'
    then positive (unsigned s)
    else positive (unsigned (c ∷ s))

unfoldable pub equal_ℤ : ℤ → ℤ → Bool
equal_ℤ (pos m) (pos n) = m == n
equal_ℤ (negsuc m) (negsuc n) = m == n
equal_ℤ _ _ = false

-- Whether some word is `-l` and the next one the socket.
unfoldable pub listens_on : Text → List Text → Bool
listens_on socket [] = false
listens_on socket (t ∷ []) = false
listens_on socket (t ∷ u ∷ ts) =
    (equal t (codes "-l") && equal u socket) || listens_on socket (u ∷ ts)

is_agent : Text → List Text → Bool
unfolding listens_on
is_agent socket [] = false
is_agent socket (program ∷ words) =
    equal (base program) (codes "touchid-agent") && listens_on socket (program ∷ words)

of_command : Text → ℤ → Option ℤ → Text → Option ℤ
unfolding equal_ℤ is_agent fields
of_command socket self none command = none
of_command socket self (some pid) command =
    if not (equal_ℤ pid self) && is_agent socket (fields command) then some pid else none

of_pieces : Text → ℤ → Option (Text × Text) → Option ℤ
unfolding of_command atoi
of_pieces socket self none = none
of_pieces socket self (some (pid, command)) = of_command socket self (atoi pid) command

-- The process of one line of `ps`, where it is an agent on the socket and not this program.
unfoldable pub stale_of_line : Text → ℤ → Text → Option ℤ
unfolding of_pieces
stale_of_line socket self line = of_pieces socket self (cut (trim_space line) b' ')

onto_found : Option ℤ → List ℤ → List ℤ
onto_found none pids = pids
onto_found (some pid) pids = pid ∷ pids

stale_of_lines : Text → ℤ → List Text → List ℤ
unfolding onto_found
stale_of_lines socket self [] = []
stale_of_lines socket self (l ∷ ls) =
    onto_found (stale_of_line socket self l) (stale_of_lines socket self ls)

unfoldable pub parse_stale_l_mode_processes : Text → Text → ℤ → List ℤ
unfolding stale_of_lines
parse_stale_l_mode_processes ps_output socket self = stale_of_lines socket self (split ps_output 10)

-- `none` stands for a `ps` that fails.
unfoldable pub find_stale_l_mode_processes : Option Text → Text → ℤ → List ℤ
find_stale_l_mode_processes none socket self = []
find_stale_l_mode_processes (some output) socket self =
    parse_stale_l_mode_processes output socket self
