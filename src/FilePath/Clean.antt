-- ===== src/FilePath/Clean.antt =====
-- `filepath.Clean` and `filepath.Join` on an absolute path that is clean, such as a home directory.
use touchid_agent.Prelude.{Bool, true, List, [], ◌∷◌, ◌++◌, ◌≡◌, sym, ap, ◌∙◌, All, append_assoc}
use touchid_agent.Text.{Text, is_empty, split}
use touchid_agent.Text.Split.{split-append}
use touchid_agent.FilePath.{
  slash, join, clean, clean_piece, clean_pieces, joined, is_rooted, cleaned,
}
use touchid_agent.FilePath.Names.{IsPlain}

clean_piece_plain :
    (rooted : Bool) (name : Text) (kept : List Text)
    → IsPlain name
    → clean_piece rooted name kept ≡ name ∷ kept
unfolding clean_piece
clean_piece_plain rooted name [] h = rw (h.filled, h.not_dot, h.not_dots)
clean_piece_plain rooted name (q ∷ kept) h = rw (h.filled, h.not_dot, h.not_dots)

clean_pieces-last :
    (ps : List Text) (kept : List Text) (name : Text)
    → IsPlain name
    → clean_pieces true (ps ++ name ∷ []) kept ≡ name ∷ clean_pieces true ps kept
unfolding clean_pieces
clean_pieces-last [] kept name h = clean_piece_plain true name kept h
clean_pieces-last (p ∷ ps) kept name h = clean_pieces-last ps (clean_piece true p kept) name h

-- The absolute path of a piece and those above it.
abbrev pub absolute : Text → List Text → Text
absolute p ps = slash ∷ joined (p ∷ ps)

pieces : Text → List Text
pieces path = clean_pieces true (split path slash) []

pieces-append :
    (path name : Text) → IsPlain name → pieces (path ++ slash ∷ name) ≡ name ∷ pieces path
unfolding pieces
pieces-append path name h =
    rw (split-append slash path name h.no_slash) (clean_pieces-last (split path slash) [] name h)

pieces-absolute :
    (p : Text) (ps : List Text) → IsPlain p → All IsPlain ps → pieces (absolute p ps) ≡ p ∷ ps
unfolding joined pieces clean_pieces split clean_piece is_empty
pieces-absolute p [] h hs = pieces-append [] p h
pieces-absolute p (q ∷ ps) h (k, hs) =
    pieces-append (absolute q ps) p h ∙ ap (λ r. p ∷ r) (pieces-absolute q ps k hs)

join-absolute :
    (p name : Text) (ps : List Text)
    → IsPlain p
    → All IsPlain ps
    → IsPlain name
    → join (absolute p ps) name ≡ absolute name (p ∷ ps)
unfolding join clean is_rooted cleaned is_empty split pieces
join-absolute p name ps h hs k =
    ap (λ r. slash ∷ joined r)
      (pieces-append (absolute p ps) name k ∙ ap (λ r. name ∷ r) (pieces-absolute p ps h hs))

join_both :
    (p first second : Text) (ps : List Text)
    → IsPlain p
    → All IsPlain ps
    → IsPlain first
    → IsPlain second
    → join (absolute p ps) (first ++ slash ∷ second) ≡ absolute second (first ∷ p ∷ ps)
unfolding join clean is_rooted cleaned is_empty split pieces
join_both p first second ps h hs k l =
    ap (λ r. slash ∷ joined r)
      (ap pieces (sym (append_assoc (absolute p ps) (slash ∷ first) (slash ∷ second)))
        ∙ pieces-append (absolute p ps ++ slash ∷ first) second l
        ∙ ap (λ r. second ∷ r)
            (pieces-append (absolute p ps) first k
              ∙ ap (λ r. first ∷ r) (pieces-absolute p ps h hs)))

-- Two names joined one after the other, and at once.
pub join-join :
    (p first second : Text) (ps : List Text)
    → IsPlain p
    → All IsPlain ps
    → IsPlain first
    → IsPlain second
    → join (join (absolute p ps) first) second ≡ join (absolute p ps) (first ++ slash ∷ second)
join-join p first second ps h hs k l =
    ap (λ x. join x second) (join-absolute p first ps h hs k)
    ∙ join-absolute first second (p ∷ ps) k (h, hs) l
    ∙ sym (join_both p first second ps h hs k l)
