-- ===== src/Commands/Stale/Found.antt =====
-- What `parseStaleLModeProcesses` of main.go finds.
use touchid_agent.Prelude.{
  ℤ, pos, negsuc, true, not, ◌&&◌, List, [], ◌∷◌, ◌++◌, Option, none, some, ◌≡◌, ◌↔◌, ◌⊎◌, inl, inr,
  refl, arith, ap, &&-eq-true, ◌≢◌, Bool-cases,
}
use touchid_agent.Text.{Text, codes, equal, equal_iff, equal_refl, trim_space, cut, split}
use touchid_agent.FilePath.{base}
use touchid_agent.Commands.Stale.{
  fields, atoi, equal_ℤ, listens_on, is_agent, of_command, of_pieces, stale_of_line, stale_of_lines,
  onto_found, parse_stale_l_mode_processes,
}

-- A predicate that some element has, and being among the elements.
module _ {ℓ} {A : Type ℓ} where
  abbrev pub Some : (A → Type 0) → List A → Type 0
  Some P [] = ⊥
  Some P (x ∷ xs) = P x ⊎ Some P xs

-- The words have `-l`, and behind it the socket.
abbrev pub ListensOn : Text → List Text → Type 0
ListensOn socket words =
    (before : List Text) × (after : List Text) × (words ≡ before ++ codes "-l" ∷ socket ∷ after)

-- A line of `ps` that shows an agent on the socket, with this identifier, which is not one's own.
abbrev pub IsStale : Text → ℤ → ℤ → Text → Type 0
IsStale socket self pid line =
    (number : Text) × (command : Text) × (program : Text) × (words : List Text) × (cut
        (trim_space line) b' '
      ≡ some (number, command))
    × (atoi number ≡ some pid)
    × (pid ≢ self)
    × (fields command ≡ program ∷ words)
    × (base program ≡ codes "touchid-agent")
    × ListensOn socket (program ∷ words)

equal_ℤ_iff : (a b : ℤ) → (equal_ℤ a b ≡ true) ↔ (a ≡ b)
unfolding equal_ℤ
equal_ℤ_iff (pos m) (pos n) = ground arith
equal_ℤ_iff (negsuc m) (negsuc n) = ground arith
equal_ℤ_iff (pos m) (negsuc n) = ground arith
equal_ℤ_iff (negsuc m) (pos n) = ground arith

listens_on-append :
    (socket : Text) (before after : List Text)
    → listens_on socket (before ++ codes "-l" ∷ socket ∷ after) ≡ true
unfolding listens_on
listens_on-append socket [] after = rw (equal_refl (codes "-l"), equal_refl socket) refl
listens_on-append socket (b ∷ []) after = ground (arith, listens_on-append socket [] after)
listens_on-append socket (b ∷ c ∷ before) after =
    ground (arith, listens_on-append socket (c ∷ before) after)

listens_on→ListensOn :
    (socket : Text) (words : List Text) → listens_on socket words ≡ true → ListensOn socket words
unfolding listens_on
listens_on→ListensOn socket [] h = absurd (ground arith)
listens_on→ListensOn socket (t ∷ []) h = absurd (ground arith)
listens_on→ListensOn socket (t ∷ u ∷ ts) h =
    elim (Bool-cases (equal t (codes "-l") && equal u socket)) [
      | inl here ↦
          let (flag, same) = &&-eq-true (equal t (codes "-l")) (equal u socket) here in
          ([], ts, rw ((equal_iff t (codes "-l")).0 flag, (equal_iff u socket).0 same) refl)
      | inr further ↦
          let (before, after, e) = listens_on→ListensOn socket (u ∷ ts) (rw further at h) in
          (t ∷ before, after, ap (λ r. t ∷ r) e)
    ]

ListensOn→listens_on :
    (socket : Text) (words : List Text) → ListensOn socket words → listens_on socket words ≡ true
ListensOn→listens_on socket words (before, after, e) = rw e (listens_on-append socket before after)

module _ (socket : Text) (self pid : ℤ) (line : Text) where
  abbrev ShowsAgent : List Text → Type 0
  ShowsAgent ws =
      (program : Text) × (words : List Text) × (ws ≡ program ∷ words)
      × (base program ≡ codes "touchid-agent")
      × ListensOn socket (program ∷ words)

  agent_shown : (ws : List Text) → is_agent socket ws ≡ true → ShowsAgent ws
  unfolding is_agent
  agent_shown [] h = absurd (ground arith)
  agent_shown (program ∷ words) h =
      let (named, listens) = &&-eq-true (equal (base program) (codes "touchid-agent")) _ h in
      (
        program,
        words,
        refl,
        (equal_iff (base program) (codes "touchid-agent")).0 named,
        listens_on→ListensOn socket (program ∷ words) listens,
      )

  command_shown :
      (number : Option ℤ) (command : Text)
      → of_command socket self number command ≡ some pid
      → (number ≡ some pid) × (pid ≢ self) × ShowsAgent (fields command)
  unfolding of_command
  command_shown none command h = absurd (ground arith)
  command_shown (some n) command h =
      elim (Bool-cases (not (equal_ℤ n self) && is_agent socket (fields command))) [
        | inr fails ↦ absurd (ground arith)
        | inl holds ↦
            let (other, shown) = &&-eq-true (not (equal_ℤ n self)) _ holds in
            let same : n ≡ pid = ground arith in
            (
              ap some same,
              λ e. ground (arith, equal_ℤ_iff n self),
              agent_shown (fields command) shown,
            )
      ]

  pieces_shown :
      (pieces : Option (Text × Text))
      → cut (trim_space line) b' ' ≡ pieces
      → of_pieces socket self pieces ≡ some pid
      → IsStale socket self pid line
  unfolding of_pieces
  pieces_shown none c h = absurd (ground arith)
  pieces_shown (some (number, command)) c h =
      let (a, other, (program, words, w, b, l)) = command_shown (atoi number) command h in
      (number, command, program, words, c, a, other, w, b, l)

  found-IsStale : stale_of_line socket self line ≡ some pid → IsStale socket self pid line
  unfolding stale_of_line
  found-IsStale h = pieces_shown (cut (trim_space line) b' ') refl h

  IsStale-found : IsStale socket self pid line → stale_of_line socket self line ≡ some pid
  unfolding stale_of_line of_pieces of_command is_agent
  IsStale-found (number, command, program, words, c, a, other, w, b, l) =
      rw (c, a, w, b, ListensOn→listens_on socket (program ∷ words) l)
        (elim (Bool-cases (equal_ℤ pid self)) [
          | inl same ↦ absurd (other ((equal_ℤ_iff pid self).0 same))
          | inr differs ↦ rw (differs, equal_refl (codes "touchid-agent")) refl
        ])

module _ (socket : Text) (self pid : ℤ) where
  onto_found_iff :
      (found : Option ℤ) (pids : List ℤ)
      → Some (λ p. p ≡ pid) (onto_found found pids)
        ↔ ((found ≡ some pid) ⊎ Some (λ p. p ≡ pid) pids)
  unfolding onto_found
  onto_found_iff none pids = (inr, λ h. elim h [ inl e ↦ absurd (ground arith) | inr r ↦ r ])
  onto_found_iff (some p) pids = (
    λ h. elim h [ inl e ↦ inl (ap some e) | inr r ↦ inr r ],
    λ h. elim h [ inl e ↦ inl (ground arith) | inr r ↦ inr r ],
  )

  stale_of_lines_iff :
      (lines : List Text)
      → Some (λ p. p ≡ pid) (stale_of_lines socket self lines)
        ↔ Some (IsStale socket self pid) lines
  unfolding stale_of_lines
  stale_of_lines_iff [] = (λ h. h, λ h. h)
  stale_of_lines_iff (l ∷ ls) =
      let each = onto_found_iff (stale_of_line socket self l) (stale_of_lines socket self ls) in
      let rest = stale_of_lines_iff ls in
      (
        λ h. elim (each.0 h) [
          | inl e ↦ inl (found-IsStale socket self pid l e)
          | inr r ↦ inr (rest.0 r)
        ],
        λ h.
            each.1
              (elim h [ inl e ↦ inl (IsStale-found socket self pid l e) | inr r ↦ inr (rest.1 r) ]),
      )

  -- An identifier is reported exactly where some line of the output of `ps` begins with it, it is not
  -- one's own, and the program's name is `touchid-agent` and among its words is `-l` with the socket
  -- right behind it.
  pub reported_iff :
      (ps_output : Text)
      → Some (λ p. p ≡ pid) (parse_stale_l_mode_processes ps_output socket self)
        ↔ Some (IsStale socket self pid) (split ps_output 10)
  unfolding parse_stale_l_mode_processes
  reported_iff ps_output = stale_of_lines_iff (split ps_output 10)
