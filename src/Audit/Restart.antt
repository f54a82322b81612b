-- ===== src/Audit/Restart.antt =====
-- `NewAuditLogger` of audit.go on a file that a logger has written.
use touchid_agent.Prelude.{
  ℕ, zero, suc, ◌+◌, ◌-◌, ◌%◌, ◌≤◌, false, List, [], ◌∷◌, ◌++◌, append_assoc, none, some, ok,
  length, length-append, drop, LastView, none_yet, ended, last_view, All, ◌≡◌, ◌≢◌, ◌⊎◌, inl, inr,
  refl, ◌∙◌, arith,
}
use touchid_agent.Text.{Text, is_empty}
use touchid_agent.Audit.Encoding.{Codec, IsFaithful}
use touchid_agent.Audit.Scan.{Bytes, newline, render, render_one, render-append}
use touchid_agent.Audit.{
  AuditLogger, Call, Written, u64, tail_size, genesis_prev, strip_newlines, cons_stripped,
  after_last_newline, last_line, read_last_line, seed_line, seed_chain, new_audit_logger,
  new_stderr_audit_logger,
}
use touchid_agent.Audit.Chain.{
  IsLine, Linked, IsChained, AllClean, written_records, sign_all, sign_all-IsChained, new-IsChained,
}

-- Empty, or with a newline at the end.
abbrev IsClosed : Bytes → Type 0
IsClosed x = (x ≡ []) ⊎ ((y : Bytes) × (x ≡ y ++ newline ∷ []))

IsClosed-tail : (c : ℕ) (x : Bytes) → IsClosed (c ∷ x) → IsClosed x
IsClosed-tail c [] h = inl refl
IsClosed-tail c (d ∷ x) (inl e) = absurd (cc)
IsClosed-tail c (d ∷ x) (inr ([], e)) = absurd (cc)
IsClosed-tail c (d ∷ x) (inr (b ∷ y, e)) = inr (y, cc)

drop-IsClosed : (k : ℕ) (x : Bytes) → IsClosed x → IsClosed (drop k x)
drop-IsClosed zero x h = h
drop-IsClosed (suc k) [] h = h
drop-IsClosed (suc k) (c ∷ x) h = drop-IsClosed k x (IsClosed-tail c x h)

render-IsClosed : (ls : List Bytes) → IsClosed (render ls)
unfolding render
render-IsClosed [] = inl refl
render-IsClosed (l ∷ ls) = elim (render-IsClosed ls) [
  | inl e ↦ inr (l, rw e)
  | inr (y, e) ↦ inr (l ++ newline ∷ y, rw (e, append_assoc))
]

drop-append : (k : ℕ) (x y : Bytes) → k ≤ length x → drop k (x ++ y) ≡ drop k x ++ y
drop-append zero x y h = refl
drop-append (suc k) [] y h = absurd (omega arith)
drop-append (suc k) (c ∷ x) y h = drop-append k x y (omega arith)

-- A line in the tail: no newline in it, and not empty.
abbrev IsRecord : Bytes → Type 0
IsRecord l = All (λ b. b ≢ newline) l × (is_empty l ≡ false)

strip_cons : (c : ℕ) (s : Bytes) → c ≢ newline → cons_stripped c s ≡ c ∷ s
unfolding cons_stripped
strip_cons c [] n = ground arith
strip_cons c (d ∷ s) n = refl

strip_line : (l : Bytes) → All (λ b. b ≢ newline) l → strip_newlines (l ++ newline ∷ []) ≡ l
unfolding strip_newlines
strip_line [] h = refl
strip_line (c ∷ l) (n, h) = rw (strip_line l h) (strip_cons c l n)

cons_stripped_filled :
    (b : ℕ) (x : Bytes) (c : ℕ) (t : Bytes) → cons_stripped b (x ++ c ∷ t) ≡ b ∷ (x ++ c ∷ t)
unfolding cons_stripped
cons_stripped_filled b [] c t = refl
cons_stripped_filled b (d ∷ x) c t = refl

strip_front :
    (x s : Bytes) (c : ℕ) (t : Bytes)
    → strip_newlines s ≡ c ∷ t
    → strip_newlines (x ++ s) ≡ x ++ c ∷ t
unfolding strip_newlines
strip_front [] s c t h = h
strip_front (b ∷ x) s c t h = rw (strip_front x s c t h) (cons_stripped_filled b x c t)

after_none : (l : Bytes) → All (λ b. b ≢ newline) l → after_last_newline l ≡ none
unfolding after_last_newline
after_none [] h = refl
after_none (c ∷ l) (n, h) = rw (after_none l h) (ground arith)

after_some :
    (y l : Bytes) → All (λ b. b ≢ newline) l → after_last_newline (y ++ newline ∷ l) ≡ some l
unfolding after_last_newline
after_some [] l h = rw (after_none l h)
after_some (c ∷ y) l h = rw (after_some y l h)

last_line-closed : (x l : Bytes) → IsClosed x → All (λ b. b ≢ newline) l → last_line (x ++ l) ≡ l
unfolding last_line
last_line-closed x l (inl e) h = rw (e, after_none l h)
last_line-closed x l (inr (y, e)) h = rw (e, append_assoc, after_some y l h)

strip_record :
    (x l : Bytes)
    → All (λ b. b ≢ newline) l
    → is_empty l ≡ false
    → strip_newlines (x ++ (l ++ newline ∷ [])) ≡ x ++ l
unfolding is_empty
strip_record x [] h f = absurd (cc)
strip_record x (c ∷ l) h f = strip_front x (c ∷ l ++ newline ∷ []) c l (strip_line (c ∷ l) h)

-- The last line is found in the last 64 KiB, whatever stands before it.
read_last_line-render :
    (ls : List Bytes) (l : Bytes) → IsLine l → read_last_line (some (render (ls ++ l ∷ []))) ≡ l
unfolding read_last_line
read_last_line-render ls l line =
    rw
      (
        render-append ls (l ∷ []),
        render_one l,
        drop-append (length (render ls ++ (l ++ newline ∷ [])) - tail_size) (render ls)
            (l ++ newline ∷ [])
            (omega (
              arith,
              line.fits,
              length-append {0} (render ls) (l ++ newline ∷ []),
              length-append {0} l (newline ∷ []),
            )),
        strip_record (drop (length (render ls ++ (l ++ newline ∷ [])) - tail_size) (render ls)) l
            line.one_line line.filled,
      )
      (last_line-closed _ l (drop-IsClosed _ (render ls) (render-IsClosed ls)) line.one_line)

module _ (codec : Codec) (faithful : IsFaithful codec) where
  open codec use {decode, decode_seq, hash_line}

  Linked-last :
      (s : ℕ) (p : Text) (ls : List Bytes) (l : Bytes) (s' : ℕ) (p' : Text)
      → Linked codec s p (ls ++ l ∷ []) s' p'
      → IsLine l × (q : Text) × (decode l ≡ some (s', q)) × (hash_line l ≡ p')
  Linked-last s p [] l s' p' (k, d, (e, h)) = (k, p, rw (← e) d, h)
  Linked-last s p (m ∷ ls) l s' p' (k, d, rest) =
      Linked-last ((s + 1) % u64) (hash_line m) ls l s' p' rest

  seed_line-filled :
      (l : Bytes) (n : ℕ) (p : Text)
      → is_empty l ≡ false
      → decode_seq l ≡ n
      → hash_line l ≡ p
      → seed_line codec l ≡ (n, p)
  unfolding is_empty seed_line
  seed_line-filled [] n p f d k = absurd (cc)
  seed_line-filled (c ∷ l) n p f d k = rw (d, k)

  seed_chain_empty : seed_chain codec (some (render [])) ≡ (0, genesis_prev)
  unfolding seed_chain read_last_line render after_last_newline
  seed_chain_empty = refl

  seed_chain-Linked :
      (n : ℕ) (p : Text) (lines : List Bytes)
      → Linked codec 0 genesis_prev lines n p
      → LastView lines
      → seed_chain codec (some (render lines)) ≡ (n, p)
  seed_chain-Linked n p lines h (none_yet e) =
      let empty : Linked codec 0 genesis_prev [] n p = rw e at h in
      rw e (seed_chain_empty ∙ cc (empty.0, empty.1))
  seed_chain-Linked n p lines h (ended ls l e) =
      let (line, q, d, k) = Linked-last 0 genesis_prev ls l n p (rw e at h) in
      rw e (
        unfold seed_chain in
        rw (read_last_line-render ls l line)
          (seed_line-filled l n p line.filled (faithful.agrees l n q d) k))

  pub reopened :
      (n : ℕ) (a : AuditLogger)
      → IsChained codec n a
      → new_audit_logger codec none (some a.file) none ≡ ok a
  unfolding new_audit_logger
  reopened n a v =
      rw (v.written, seed_chain-Linked a.seq a.prev_hash v.lines v.linked (last_view v.lines))
        (ground (arith, v.written))

  -- A logger that has written its log from the start on, all of it in clean writes, is found again when
  -- the log is opened anew: with the same file, the same number and the same hash.
  pub new_audit_logger-sign_all :
      (calls : List (Call × Written))
      → AllClean codec calls
      → new_audit_logger codec none (some (sign_all codec calls new_stderr_audit_logger).file) none
        ≡ ok (sign_all codec calls new_stderr_audit_logger)
  new_audit_logger-sign_all calls h =
      reopened (0 + written_records codec calls) (sign_all codec calls new_stderr_audit_logger) (
        sign_all-IsChained codec faithful 0 calls new_stderr_audit_logger h
          (new-IsChained codec faithful))
