-- ===== src/Audit/Blind.antt =====
-- `VerifyAuditChain` of audit.go on a carriage return before a newline.
use touchid_agent.Prelude.{
  ◌+◌, ◌<◌, false, List, [], ◌∷◌, ◌++◌, length, length-append, All, All-append, ◌≡◌, ◌≢◌, refl, ap,
  arith, leb, fun_ext, ok,
}
use touchid_agent.Audit.Encoding.{Codec}
use touchid_agent.Audit.Scan.{Bytes, newline, carriage_return, drop_cr, render, raw_lines-render}
use touchid_agent.Audit.{max_token, verify_lines, verify_audit_chain}

drop_cr-append : (l : Bytes) → drop_cr (l ++ carriage_return ∷ []) ≡ l
unfolding drop_cr
drop_cr-append [] = refl
drop_cr-append (c ∷ []) = refl
drop_cr-append (c ∷ d ∷ l) = ap (λ t. c ∷ t) (drop_cr-append (d ∷ l))

fits : (l : Bytes) → length l < max_token → leb max_token (length l) ≡ false
fits l h = ground arith

module _ (codec : Codec) (l : Bytes) (kept : drop_cr l ≡ l) (short : length l + 1 < max_token) where
  verify_lines-cr :
      (before after : List Bytes)
      → verify_lines codec (before ++ (l ++ carriage_return ∷ []) ∷ after)
        ≡ verify_lines codec (before ++ l ∷ after)
  unfolding verify_lines
  verify_lines-cr [] after = fun_ext λ line. fun_ext λ chained. fun_ext λ s. fun_ext λ p. rw (
    drop_cr-append l,
    kept,
    fits l (omega arith),
    fits (l ++ carriage_return ∷ []) (omega (arith, length-append {0} l (carriage_return ∷ []))),
  )
  verify_lines-cr (m ∷ before) after =
      fun_ext λ line. fun_ext λ chained. fun_ext λ s. fun_ext λ p. rw (verify_lines-cr before after)

  -- Verification cannot tell a log from the one in which a carriage return has been written behind any
  -- one record that fits the scanner's buffer with it.
  pub carriage_return_unseen :
      (before after : List Bytes)
      → All (All (λ b. b ≢ newline)) before
      → All (λ b. b ≢ newline) l
      → All (All (λ b. b ≢ newline)) after
      → verify_audit_chain codec (ok (render (before ++ (l ++ carriage_return ∷ []) ∷ after)))
        ≡ verify_audit_chain codec (ok (render (before ++ l ∷ after)))
  unfolding verify_audit_chain
  carriage_return_unseen before after hb hl ha = rw (
    raw_lines-render (before ++ (l ++ carriage_return ∷ []) ∷ after)
        (All-append _ before _ hb (All-append _ l (carriage_return ∷ []) hl ((λ e. cc), tt), ha)),
    raw_lines-render (before ++ l ∷ after) (All-append _ before _ hb (hl, ha)),
    verify_lines-cr before after,
  )
