-- ===== src/Audit/Chain.antt =====
-- The logger of audit.go between two calls of `Sign`, and `VerifyAuditChain` on its file.
use native.Mathlib.Nat.{add-zero, zero-add, add_assoc}
use touchid_agent.Prelude.{
  ℕ, ◌+◌, ◌%◌, ◌<◌, false, List, [], ◌∷◌, ◌++◌, append-nil, some, ok, leb, length, length-append,
  take, All, ◌≡◌, ◌≢◌, refl, ap, ◌∙◌, arith,
}
use touchid_agent.Text.{Text, equal_refl, is_empty}
use touchid_agent.Audit.Encoding.{SignEvent, Codec, IsFaithful}
use touchid_agent.Audit.Scan.{
  Bytes, newline, drop_cr, drop_cr-closed, render, render_one, render-append, raw_lines-render,
}
use touchid_agent.Audit.{
  AuditLogger, Call, Written, all, short, event, u64, max_token, tail_size, genesis_prev, sign,
  write_line, check_line, check_record, verify_lines, verify_audit_chain, chain_intact, Verdict,
  new_stderr_audit_logger,
}

-- The texts that stand for a hash: 64 characters.
abbrev pub IsDigest : Text → Type 0
IsDigest h = length h ≡ 64

same_verdict :
    {m n k l : ℕ}
    → m ≡ n
    → k ≡ l
    → ◌≡◌ {A = Verdict} (ok (chain_intact m k)) (ok (chain_intact n l))
same_verdict e f = cc

fits_token : (l : Bytes) → length l < tail_size → leb max_token (length l) ≡ false
fits_token l h = ground arith

-- A line that the scanner gives back whole.
pub record IsLine (l : Bytes) : Type 0 where
  pub one_line : All (λ b. b ≢ newline) l
  pub kept : drop_cr l ≡ l
  pub filled : is_empty l ≡ false
  pub fits : length l < tail_size

-- The calls of `Sign` on one logger, in order, with the outcome of each write.
unfoldable pub sign_all : Codec → List (Call × Written) → AuditLogger → AuditLogger
sign_all codec [] a = a
sign_all codec ((c, w) ∷ calls) a = sign_all codec calls (sign codec c w a)

module _ (codec : Codec) where
  open codec use {encode, decode, hash_line}

  -- The lines lead from one number and hash to another, each record naming the hash before it.
  abbrev pub Linked : ℕ → Text → List Bytes → ℕ → Text → Type 0
  Linked s p [] s' p' = (s ≡ s') × (p ≡ p')
  Linked s p (l ∷ ls) s' p' =
      IsLine l
      × (decode l ≡ some ((s + 1) % u64, p))
      × Linked ((s + 1) % u64) (hash_line l) ls s' p'

  pub Linked-append :
      (s : ℕ) (p : Text) (ls : List Bytes) (s' : ℕ) (p' : Text) (l : Bytes)
      → Linked s p ls s' p'
      → IsLine l
      → decode l ≡ some ((s' + 1) % u64, p')
      → Linked s p (ls ++ l ∷ []) ((s' + 1) % u64) (hash_line l)
  Linked-append s p [] s' p' l (e, q) line d =
      (line, rw (e, q) d, (ap (λ n. (n + 1) % u64) e, refl))
  Linked-append s p (m ∷ ls) s' p' l (k, d', rest) line d =
      (k, d', Linked-append ((s + 1) % u64) (hash_line m) ls s' p' l rest line d)

  pub Linked-lines :
      (s : ℕ) (p : Text) (ls : List Bytes) (s' : ℕ) (p' : Text)
      → Linked s p ls s' p'
      → All (All (λ b. b ≢ newline)) ls
  Linked-lines s p [] s' p' h = tt
  Linked-lines s p (l ∷ ls) s' p' (k, d, rest) =
      (k.one_line, Linked-lines ((s + 1) % u64) (hash_line l) ls s' p' rest)

  -- What is true of a logger between two calls, with `n` records written.
  pub record IsChained (n : ℕ) (a : AuditLogger) : Type 0 where
    pub lines : List Bytes
    pub counted : length lines ≡ n
    pub written : a.file ≡ render lines
    pub linked : Linked 0 genesis_prev lines a.seq a.prev_hash
    pub digest : IsDigest a.prev_hash
    pub ranged : a.seq < u64

  -- A call whose record, at any place of the chain, is a line shorter than 64 KiB.
  abbrev pub Fits : Call → Type 0
  Fits c =
      (seq : ℕ) (prev : Text) (l : Bytes)
      → seq < u64
      → IsDigest prev
      → encode (event c seq prev) ≡ some l
      → length l < tail_size

  -- A write takes the whole record, or fails before its first byte.
  abbrev pub Clean : Written → Type 0
  Clean all = Unit
  Clean (short n) = n ≡ 0

  abbrev pub records_of : Written → ℕ
  records_of all = 1
  records_of (short n) = 0

  abbrev pub AllClean : List (Call × Written) → Type 0
  AllClean [] = Unit
  AllClean ((c, w) ∷ calls) = Fits c × Clean w × AllClean calls

  abbrev pub written_records : List (Call × Written) → ℕ
  written_records [] = 0
  written_records ((c, w) ∷ calls) = records_of w + written_records calls

  module _ (faithful : IsFaithful codec) where
    open faithful use {encoding, encodes, decodes, one_line, closed, hash_length}

    filled_append : (body : Bytes) (b : ℕ) → is_empty (body ++ b ∷ []) ≡ false
    unfolding is_empty
    filled_append [] b = refl
    filled_append (c ∷ body) b = refl

    encoding-IsLine : (e : SignEvent) → length (encoding e) < tail_size → IsLine (encoding e)
    encoding-IsLine e h =
        let (body, shape) = closed e in
        record {
          one_line = one_line e;
          kept = rw shape (drop_cr-closed body);
          filled = rw shape (filled_append body b'}');
          fits = h;
        }

    appended : (a : AuditLogger) (n : ℕ) → n ≡ 0 → (line : Bytes) → a.file ++ take n line ≡ a.file
    appended a n e line = rw (e, append-nil)

    pub sign-IsChained :
        (n : ℕ) (c : Call) (w : Written) (a : AuditLogger)
        → Fits c
        → Clean w
        → IsChained n a
        → IsChained (n + records_of w) (sign codec c w a)
    unfolding sign
    sign-IsChained n c (short k) a f clean v =
        rw (encodes (event c a.seq a.prev_hash), write_line, appended a k clean)
          (record {
            lines = v.lines;
            counted = omega (arith, v.counted);
            written = v.written;
            linked = v.linked;
            digest = v.digest;
            ranged = v.ranged;
          })
    sign-IsChained n c all a f clean v =
        let e : SignEvent = event c a.seq a.prev_hash in
        let line =
          encoding-IsLine e (f a.seq a.prev_hash (encoding e) v.ranged v.digest (encodes e)) in
        rw (encodes (event c a.seq a.prev_hash), write_line)
          (record {
            lines = v.lines ++ encoding e ∷ [];
            counted = omega (arith, v.counted, length-append {0} v.lines (encoding e ∷ []));
            written =
                rw (render-append v.lines (encoding e ∷ []), render_one (encoding e), v.written);
            linked =
                Linked-append 0 genesis_prev v.lines a.seq a.prev_hash (encoding e) v.linked line
                  (unfold event in decodes e);
            digest = hash_length (encoding e);
            ranged = omega arith;
          })

    pub sign_all-IsChained :
        (n : ℕ) (calls : List (Call × Written)) (a : AuditLogger)
        → AllClean calls
        → IsChained n a
        → IsChained (n + written_records calls) (sign_all codec calls a)
    unfolding sign_all
    sign_all-IsChained n [] a h v = rw add-zero v
    sign_all-IsChained n ((c, w) ∷ calls) a (f, k, h) v =
        rw (← add_assoc n (records_of w) (written_records calls)) (
          sign_all-IsChained (n + records_of w) calls (sign codec c w a) h
            (sign-IsChained n c w a f k v))

    pub new-IsChained : IsChained 0 new_stderr_audit_logger
    unfolding render
    new-IsChained = record {
      lines = [];
      counted = refl;
      written = refl;
      linked = (refl, refl);
      digest = refl;
      ranged = omega arith;
    }

    digest-filled : (p : Text) → IsDigest p → is_empty p ≡ false
    unfolding is_empty
    digest-filled [] h = absurd (omega arith)
    digest-filled (c ∷ p) h = refl

    check_line-linked :
        (l : Bytes) (line chained s : ℕ) (p : Text) (next : ℕ → ℕ → ℕ → Text → Verdict)
        → is_empty l ≡ false
        → is_empty p ≡ false
        → decode l ≡ some ((s + 1) % u64, p)
        → check_line codec l line chained s p next
          ≡ next (line + 1) (chained + 1) ((s + 1) % u64) (hash_line l)
    unfolding check_line
    check_line-linked l line chained s p next f g d =
        rw (f, d) (rw (check_record, g, equal_refl p) (ground arith))

    verify_lines-Linked :
        (ls : List Bytes) (line chained s : ℕ) (p : Text) (s' : ℕ) (p' : Text)
        → Linked s p ls s' p'
        → IsDigest p
        → verify_lines codec ls line chained s p
          ≡ ok (chain_intact (line + length ls) (chained + length ls))
    unfolding verify_lines
    verify_lines-Linked [] line chained s p s' p' h g = same_verdict (omega arith) (omega arith)
    verify_lines-Linked (l ∷ ls) line chained s p s' p' (k, d, rest) g =
        rw (fits_token l k.fits, k.kept)
          (check_line-linked l line chained s p (verify_lines codec ls) k.filled (digest-filled p g)
              d
            ∙ verify_lines-Linked ls (line + 1) (chained + 1) ((s + 1) % u64) (hash_line l) s' p'
                rest (hash_length l)
            ∙ same_verdict (omega arith) (omega arith))

    pub IsChained-verifies :
        (n : ℕ) (a : AuditLogger)
        → IsChained n a
        → verify_audit_chain codec (ok a.file) ≡ ok (chain_intact n n)
    unfolding verify_audit_chain
    IsChained-verifies n a v =
        rw
          (
            v.written,
            raw_lines-render v.lines
                (Linked-lines 0 genesis_prev v.lines a.seq a.prev_hash v.linked),
          )
          (verify_lines-Linked v.lines 0 0 0 genesis_prev a.seq a.prev_hash v.linked refl
            ∙ same_verdict (omega (arith, v.counted)) (omega (arith, v.counted)))

    -- Whatever signing events are logged from an empty log on, some writes failing before their first
    -- byte: verification finds the chain intact, with one chained record for each completed write.
    pub verify-sign_all :
        (calls : List (Call × Written))
        → AllClean calls
        → verify_audit_chain codec (ok (sign_all codec calls new_stderr_audit_logger).file)
          ≡ ok (chain_intact (written_records calls) (written_records calls))
    verify-sign_all calls h =
        IsChained-verifies (written_records calls) (sign_all codec calls new_stderr_audit_logger)
          (rw zero-add at (sign_all-IsChained 0 calls new_stderr_audit_logger h new-IsChained))
