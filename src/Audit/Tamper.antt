-- ===== src/Audit/Tamper.antt =====
-- `VerifyAuditChain` of audit.go on two log files.
use touchid_agent.Prelude.{
  ℕ, ◌+◌, ◌≤◌, true, false, List, [], ◌∷◌, Option, none, some, ok, length, ◌≡◌, ◌≢◌, ◌⊎◌, inl, inr,
  refl, arith, leb, Bool-cases, ℕ_discrete, if◌then◌else◌,
}
use touchid_agent.Text.{Text, equal, equal_iff, is_empty}
use touchid_agent.Audit.Encoding.{Codec}
use touchid_agent.Audit.Scan.{Bytes, raw_lines, drop_cr}
use touchid_agent.Audit.{
  max_token, genesis_prev, check_line, check_record, verify_lines, verify_audit_chain, chain_intact,
  Verdict,
}

module _ (codec : Codec) where
  open codec use {decode, hash_line}

  -- Two different lines with one hash.
  abbrev pub Collision : Type 0
  Collision = (x : Bytes) × (y : Bytes) × (x ≢ y) × (hash_line x ≡ hash_line y)

  -- The lines that count, as the scanner gives them: no carriage return at the end, none empty.
  abbrev pub scanned : List Bytes → List Bytes
  scanned [] = []
  scanned (raw ∷ rest) =
      let later = scanned rest in if is_empty (drop_cr raw) then later else drop_cr raw ∷ later

  -- The hash that the next record would have to name.
  abbrev pub head_hash : Text → List Bytes → Text
  head_hash p [] = p
  head_hash p (l ∷ ls) = head_hash (hash_line l) ls

  -- Each record names the hash of the one before.
  abbrev Named : Text → List Bytes → Type 0
  Named p [] = Unit
  Named p (l ∷ ls) = ((s : ℕ) × (decode l ≡ some (s, p))) × Named (hash_line l) ls

  -- How one line can go by when the whole log is found intact.
  data Passed (l : Bytes) (line chained s : ℕ) (p : Text) (next : ℕ → ℕ → ℕ → Text → Verdict)
      (v : Verdict) : Type 0 where
    blank : is_empty l ≡ true → next line chained s p ≡ v → Passed l line chained s p next v
    legacy :
        is_empty l ≡ false
        → next (line + 1) chained s (hash_line l) ≡ v
        → Passed l line chained s p next v
    linked :
        (n : ℕ)
        → is_empty l ≡ false
        → decode l ≡ some (n, p)
        → next (line + 1) (chained + 1) n (hash_line l) ≡ v
        → Passed l line chained s p next v

  module _ (line chained s : ℕ) (p : Text) (next : ℕ → ℕ → ℕ → Text → Verdict) (n m : ℕ) where
    check_record-Passed :
        (l : Bytes) (d : Option (ℕ × Text))
        → is_empty l ≡ false
        → decode l ≡ d
        → check_record codec l line chained s p next d ≡ ok (chain_intact n m)
        → Passed l line chained s p next (ok (chain_intact n m))
    unfolding check_record
    check_record-Passed l none f e h = absurd (cc)
    check_record-Passed l (some (k, prev)) f e h = elim (Bool-cases (is_empty prev)) [
      | inl old ↦ legacy f (rw old at h)
      | inr new ↦ elim (Bool-cases (equal prev p)) [
        | inl same ↦ linked k f (rw (← (equal_iff prev p).0 same) e) (ground arith)
        | inr other ↦ absurd (ground arith)
      ]
    ]

    check_line-Passed :
        (l : Bytes)
        → check_line codec l line chained s p next ≡ ok (chain_intact n m)
        → Passed l line chained s p next (ok (chain_intact n m))
    unfolding check_line
    check_line-Passed l h = elim (Bool-cases (is_empty l)) [
      | inl e ↦ blank e (rw e at h)
      | inr e ↦ check_record-Passed l (decode l) e refl (rw e at h)
    ]

  verify_lines-Passed :
      (raw : Bytes) (rest : List Bytes) (line chained s : ℕ) (p : Text) (n m : ℕ)
      → verify_lines codec (raw ∷ rest) line chained s p ≡ ok (chain_intact n m)
      → Passed (drop_cr raw) line chained s p (verify_lines codec rest) (ok (chain_intact n m))
  unfolding verify_lines
  verify_lines-Passed raw rest line chained s p n m h =
      elim (Bool-cases (leb max_token (length raw))) [
        | inl long ↦ absurd (ground arith)
        | inr fits ↦
            check_line-Passed line chained s p (verify_lines codec rest) n m (drop_cr raw)
              (rw fits at h)
      ]

  -- An intact verdict counts the lines, and no more chained records than lines.
  verify_lines-counts :
      (raws : List Bytes) (line chained s : ℕ) (p : Text) (n m : ℕ)
      → verify_lines codec raws line chained s p ≡ ok (chain_intact n m)
      → (n ≡ line + length (scanned raws)) × (m ≤ chained + length (scanned raws))
  verify_lines-counts [] line chained s p n m h = unfold verify_lines in ground arith
  verify_lines-counts (raw ∷ rest) line chained s p n m h =
      elim (verify_lines-Passed raw rest line chained s p n m h) [
        | blank e k ↦ rw e (verify_lines-counts rest line chained s p n m k)
        | legacy e k ↦ rw e (
            omega (
              arith,
              verify_lines-counts rest (line + 1) chained s (hash_line (drop_cr raw)) n m k,
            ))
        | linked q e d k ↦ rw e (
            omega (
              arith,
              verify_lines-counts rest (line + 1) (chained + 1) q (hash_line (drop_cr raw)) n m k,
            ))
      ]

  -- Where every record counted as chained, each names the hash of the one before.
  verify_lines-Named :
      (raws : List Bytes) (line chained s : ℕ) (p : Text) (n m : ℕ)
      → n + chained ≡ m + line
      → verify_lines codec raws line chained s p ≡ ok (chain_intact n m)
      → Named p (scanned raws)
  verify_lines-Named [] line chained s p n m e h = tt
  verify_lines-Named (raw ∷ rest) line chained s p n m e h =
      elim (verify_lines-Passed raw rest line chained s p n m h) [
        | blank f k ↦ rw f (verify_lines-Named rest line chained s p n m e k)
        | legacy f k ↦ absurd (
            omega (
              arith,
              verify_lines-counts rest (line + 1) chained s (hash_line (drop_cr raw)) n m k,
            ))
        | linked q f d k ↦ rw f (
          (q, d),
          verify_lines-Named rest (line + 1) (chained + 1) q (hash_line (drop_cr raw)) n m
              (omega arith) k,
        )
      ]

  Bytes-discrete : Discrete Bytes
  Bytes-discrete = hlevel ℕ_discrete

  same_prev :
      (l : Bytes) {s n : ℕ} {p q : Text} → decode l ≡ some (s, p) → decode l ≡ some (n, q) → p ≡ q
  same_prev l h k = cc

  Named-unique :
      (p q : Text) (ls ms : List Bytes)
      → length ls ≡ length ms
      → Named p ls
      → Named q ms
      → head_hash p ls ≡ head_hash q ms
      → ((p ≡ q) × (ls ≡ ms)) ⊎ Collision
  Named-unique p q [] [] e h k same = inl (same, refl)
  Named-unique p q [] (m ∷ ms) e h k same = absurd (omega arith)
  Named-unique p q (l ∷ ls) [] e h k same = absurd (omega arith)
  Named-unique p q (l ∷ ls) (m ∷ ms) e ((s, d), h) ((n, d'), k) same =
      elim (Named-unique (hash_line l) (hash_line m) ls ms (omega arith) h k same) [
        | inr found ↦ inr found
        | inl (hashes, rest) ↦ elim (Bytes-discrete l m) [
          | yes eq ↦ inl (same_prev m (rw eq at d) d', cc)
          | no ne ↦ inr (l, m, ne, hashes)
        ]
      ]

  -- Two log files that verify as intact with the same number of records, all of them chained, and whose
  -- next record would have to name the same hash, hold the same records in the same order; or two
  -- different lines with one hash are at hand.
  pub tamper_evident :
      (a b : Bytes) (n : ℕ)
      → verify_audit_chain codec (ok a) ≡ ok (chain_intact n n)
      → verify_audit_chain codec (ok b) ≡ ok (chain_intact n n)
      → head_hash genesis_prev (scanned (raw_lines a))
        ≡ head_hash genesis_prev (scanned (raw_lines b))
      → (scanned (raw_lines a) ≡ scanned (raw_lines b)) ⊎ Collision
  unfolding verify_audit_chain
  tamper_evident a b n h k same =
      elim (Named-unique genesis_prev genesis_prev (scanned (raw_lines a)) (scanned (raw_lines b))
        (omega (
          arith,
          verify_lines-counts (raw_lines a) 0 0 0 genesis_prev n n h,
          verify_lines-counts (raw_lines b) 0 0 0 genesis_prev n n k,
        ))
        (verify_lines-Named (raw_lines a) 0 0 0 genesis_prev n n (omega arith) h)
        (verify_lines-Named (raw_lines b) 0 0 0 genesis_prev n n (omega arith) k) same) [
          | inl (_, equal_lines) ↦ inl equal_lines
          | inr found ↦ inr found
        ]
