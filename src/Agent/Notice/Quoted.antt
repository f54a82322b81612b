-- ===== src/Agent/Notice/Quoted.antt =====
-- The script of `defaultNotify` of agent.go, as AppleScript reads a string.
use touchid_agent.Prelude.{
  ℕ, false, [], ◌∷◌, ◌++◌, Option, none, some, ◌≡◌, refl, ap, sym, ◌∙◌, arith, ◌==◌, Bool-cases,
  inl, inr, if◌then◌else◌,
}
use touchid_agent.Text.{Text}
use touchid_agent.Agent.Notice.{
  replace_rune, remove_openings, escape_for_apple_script, notify_script, script_head, script_tail,
}

onto_read : ℕ → Option (Text × Text) → Option (Text × Text)
onto_read c none = none
onto_read c (some (s, rest)) = some (c ∷ s, rest)

-- A string behind its opening quote: a backslash takes the next character as it is, and a quote ends it.
-- The text of the string, and what stands behind it.
unfoldable pub read_string : Text → Option (Text × Text)
unfolding onto_read
read_string [] = none
read_string (c ∷ []) = if c == b'"' then some ([], []) else none
read_string (c ∷ d ∷ s) =
    let behind = read_string s in
    let rest = read_string (d ∷ s) in
    if c == b'"'
    then some ([], d ∷ s)
    else if c == b'\\'
    then onto_read d behind
    else onto_read c rest

-- The escapes of quotes and backslashes alone
escaped : Text → Text
escaped [] = []
escaped (c ∷ s) =
    let rest = escaped s in
    if c == b'\\' then c ∷ c ∷ rest else if c == b'"' then b'\\' ∷ c ∷ rest else c ∷ rest

abbrev no_ticks : Text → Text
no_ticks s = replace_rune b'`' [] s

replaced_escaped :
    (s : Text)
    → no_ticks (replace_rune b'"' (b'\\' ∷ b'"' ∷ []) (replace_rune b'\\' (b'\\' ∷ b'\\' ∷ []) s))
      ≡ escaped (no_ticks s)
unfolding replace_rune escaped
replaced_escaped [] = refl
replaced_escaped (c ∷ s) = ground (arith, replaced_escaped s)

remove_openings-other :
    (c : ℕ) (s : Text) → (c == b'$') ≡ false → remove_openings (c ∷ s) ≡ c ∷ remove_openings s
unfolding remove_openings
remove_openings-other c [] h = refl
remove_openings-other c (d ∷ s) h = rw h refl

remove_openings-escaped : (s : Text) → remove_openings (escaped s) ≡ escaped (remove_openings s)
unfolding remove_openings escaped
remove_openings-escaped [] = refl
remove_openings-escaped (c ∷ []) = ground arith
remove_openings-escaped (c ∷ d ∷ s) =
    ground (arith, remove_openings-escaped s, remove_openings-escaped (d ∷ s))

read_string-plain :
    (c : ℕ) (d : ℕ) (s : Text)
    → (c == b'"') ≡ false
    → (c == b'\\') ≡ false
    → read_string (c ∷ d ∷ s) ≡ onto_read c (read_string (d ∷ s))
unfolding read_string
read_string-plain c d s h k = rw (h, k) refl

-- A text and a quote behind it are not empty.
ends_in_quote : (t rest : Text) → (d : ℕ) × (s : Text) × (t ++ b'"' ∷ rest ≡ d ∷ s)
ends_in_quote [] rest = (b'"', rest, refl)
ends_in_quote (c ∷ t) rest = (c, t ++ b'"' ∷ rest, refl)

read_string-quote : (rest : Text) → read_string (b'"' ∷ rest) ≡ some ([], rest)
unfolding read_string
read_string-quote [] = refl
read_string-quote (c ∷ rest) = refl

read_string-escape : (c : ℕ) (s : Text) → read_string (b'\\' ∷ c ∷ s) ≡ onto_read c (read_string s)
unfolding read_string
read_string-escape c s = refl

read_string-escaped : (t rest : Text) → read_string (escaped t ++ b'"' ∷ rest) ≡ some (t, rest)
unfolding escaped onto_read
read_string-escaped [] rest = read_string-quote rest
read_string-escaped (c ∷ t) rest = elim (Bool-cases (c == b'\\')) [
  | inl back ↦
      let same : c ≡ b'\\' = ground arith in
      rw same (
        read_string-escape b'\\' (escaped t ++ b'"' ∷ rest)
        ∙ ap (onto_read b'\\') (read_string-escaped t rest))
  | inr other ↦ elim (Bool-cases (c == b'"')) [
    | inl quote ↦
        let same : c ≡ b'"' = ground arith in
        rw same (
          read_string-escape b'"' (escaped t ++ b'"' ∷ rest)
          ∙ ap (onto_read b'"') (read_string-escaped t rest))
    | inr plain ↦
        let (d, s, e) = ends_in_quote (escaped t) rest in
        rw (other, plain)
          (ap (λ x. read_string (c ∷ x)) e
            ∙ read_string-plain c d s plain other
            ∙ ap (onto_read c) (ap read_string (sym e) ∙ read_string-escaped t rest))
  ]
]

-- Whatever the message, AppleScript reads the string that the script of the notification opens to just the
-- closing quote that the script has: the text it reads is the message without its backquotes and then
-- without `$(`, and behind the string stands the rest of the script.
pub notification_is_quoted :
    (message : Text)
    → (string : Text) × (notify_script message ≡ script_head ++ b'"' ∷ string)
      × (read_string string ≡ some (remove_openings (replace_rune b'`' [] message), script_tail))
unfolding notify_script escape_for_apple_script
notification_is_quoted message = (
  _,
  refl,
  rw (replaced_escaped message, remove_openings-escaped (no_ticks message))
      (read_string-escaped (remove_openings (no_ticks message)) script_tail),
)
