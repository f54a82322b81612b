-- ===== src/Plist/Xml/Texts.antt =====
-- The texts that `xmlEscape` of plist_darwin.go writes, as a property list in XML is read.
use touchid_agent.Prelude.{
  ℕ, true, false, [], ◌∷◌, ◌++◌, append_assoc, some, ◌==◌, ◌≡◌, refl, ◌∙◌, Bool-cases, inl, inr,
  All, arith,
}
use touchid_agent.Text.{Text, has_prefix}
use touchid_agent.Plist.Render.{escaped_rune, xml_escape}
use touchid_agent.Plist.Xml.{chunks, is_char, content, with_char}

-- A text of characters that XML allows as they are.
abbrev pub IsPlainText : Text → Type 0
IsPlainText t = All (λ c. is_char c ≡ true) t

same_rune : (c d : ℕ) → (c == d) ≡ true → c ≡ d
same_rune c d h = ground arith

plain_rune :
    (c : ℕ) (s : Text)
    → is_char c ≡ true
    → (c == b'&') ≡ false
    → content 0 (c ∷ s) ≡ with_char c (content 0 s)
unfolding content
plain_rune c s h amp = rw (amp, h) refl

content-rune :
    (c : ℕ) (s : Text)
    → is_char c ≡ true
    → content 0 (escaped_rune c ++ s) ≡ with_char c (content 0 s)
unfolding escaped_rune
content-rune c s h = elim (Bool-cases (c == b'&')) [
  | inl amp ↦ rw (same_rune c b'&' amp) (unfold content has_prefix in refl)
  | inr amp ↦ elim (Bool-cases (c == b'<')) [
    | inl lt ↦ rw (same_rune c b'<' lt) (unfold content has_prefix in refl)
    | inr lt ↦ elim (Bool-cases (c == b'>')) [
      | inl gt ↦ rw (same_rune c b'>' gt) (unfold content has_prefix in refl)
      | inr gt ↦ rw (amp, lt, gt) (plain_rune c s h amp)
    ]
  ]
]

pub content-xml_escape : (t : Text) → IsPlainText t → content 0 (xml_escape t) ≡ some t
unfolding xml_escape
content-xml_escape [] h = unfold content in refl
content-xml_escape (c ∷ t) (p, h) =
    content-rune c (xml_escape t) p ∙ rw (content-xml_escape t h) refl

-- The escaped text has no `<`, so that it ends at the next tag.
chunks-rune :
    (c : ℕ) (s : Text)
    → chunks (escaped_rune c ++ s) ≡ (escaped_rune c ++ (chunks s).0, (chunks s).1)
unfolding escaped_rune
chunks-rune c s = elim (Bool-cases (c == b'&')) [
  | inl amp ↦ rw amp (unfold chunks in refl)
  | inr amp ↦ elim (Bool-cases (c == b'<')) [
    | inl lt ↦ rw (amp, lt) (unfold chunks in refl)
    | inr lt ↦ elim (Bool-cases (c == b'>')) [
      | inl gt ↦ rw (amp, lt, gt) (unfold chunks in refl)
      | inr gt ↦ rw (amp, lt, gt) (unfold chunks in rw lt refl)
    ]
  ]
]

pub chunks-xml_escape :
    (t s : Text) → chunks (xml_escape t ++ s) ≡ (xml_escape t ++ (chunks s).0, (chunks s).1)
unfolding xml_escape
chunks-xml_escape [] s = refl
chunks-xml_escape (c ∷ t) s =
    rw
      (
        append_assoc (escaped_rune c) (xml_escape t) s,
        chunks-rune c (xml_escape t ++ s),
        chunks-xml_escape t s,
        append_assoc (escaped_rune c) (xml_escape t) (chunks s).0,
      )
      refl
