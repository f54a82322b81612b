-- ===== src/Agent/Requests/Log.antt =====
-- The audit records of `signFor` of agent.go, for one request and for many.
pub mod Sessions
use native.Mathlib.Nat.{add_assoc, add-zero, zero-add}
use touchid_agent.Prelude.{
  ℕ, ◌+◌, Bool, true, false, not, ◌&&◌, List, [], ◌∷◌, Option, none, some, Result, ok, err, ◌≡◌,
  inl, inr, refl, Bool-cases, is_nil,
}
use touchid_agent.Text.{Text}
use touchid_agent.Key.{Key}
use touchid_agent.Policy.{CallerError, check_caller, matches_any_rule}
use touchid_agent.Policy.Rate.{RateError}
use touchid_agent.Audit.Encoding.{Codec, IsFaithful}
use touchid_agent.Audit.{
  AuditLogger, Call, Written, new_stderr_audit_logger, verify_audit_chain, chain_intact,
}
use touchid_agent.Audit
use touchid_agent.Audit.Chain.{
  IsChained, Fits, Clean, records_of, sign-IsChained, new-IsChained, IsChained-verifies,
}
use touchid_agent.Agent.Requests.{
  SignError, Agent, World, Request, Answer, find_key, matched, matched_in, call, log_call, reject,
  note, with_signature, enclosed, prompt_and_sign, with_signer, after_rate, check_key_rules,
  after_caller, with_match, with_keys, sign_for,
}

module _ (w : World) (q : Request) where
  -- The call of `Sign` that reports a result.
  abbrev pub report : Key → Result SignError (List ℕ) → Call
  report k (ok sig) = call w q k true none
  report k (err e) = call w q k false (some (w.message e))

  abbrev pub reported :
      Codec → Option Key → Result SignError (List ℕ) → Option AuditLogger → Option AuditLogger
  reported codec none r log = log
  reported codec (some k) r log = log_call codec (report k r) w.written log

  module _ (codec : Codec) where
    abbrev Logs : Key → Option AuditLogger → Answer → Type 0
    Logs k log x = x.1.audit ≡ log_call codec (report k x.0) w.written log

    reject-Logs : (k : Key) (e : SignError) (a : Agent) → Logs k a.audit (reject codec w q k e a)
    unfolding reject
    reject-Logs k e a = refl

    with_signature-Logs :
        (k : Key) (r : Result Text (List ℕ)) (a : Agent)
        → Logs k a.audit (with_signature codec w q k r a)
    unfolding with_signature
    with_signature-Logs k (ok sig) a = elim (Bool-cases k.require_touch) [
      | inl e ↦ rw (e, note)
      | inr e ↦ rw (e, note)
    ]
    with_signature-Logs k (err m) a = elim (Bool-cases k.require_touch) [
      | inl e ↦ rw (e, note)
      | inr e ↦ rw (e, note)
    ]

    enclosed-Logs :
        (k : Key) (log : Option AuditLogger) (b : Bool) (x : Answer)
        → Logs k log x
        → Logs k log (enclosed b x)
    unfolding enclosed
    enclosed-Logs k log true x h = h
    enclosed-Logs k log false x h = h

    prompt_and_sign-Logs : (k : Key) (a : Agent) → Logs k a.audit (prompt_and_sign codec w q k a)
    unfolding prompt_and_sign
    prompt_and_sign-Logs k a =
        enclosed-Logs k a.audit k.require_touch _
          (with_signature-Logs k (w.signature k q.payload) a)

    with_signer-Logs :
        (k : Key) (o : Option Text) (a : Agent) → Logs k a.audit (with_signer codec w q k o a)
    unfolding with_signer
    with_signer-Logs k (some e) a = refl
    with_signer-Logs k none a = prompt_and_sign-Logs k a

    after_rate-Logs :
        (k : Key) (r : Result RateError (Unit {0})) (a : Agent)
        → Logs k a.audit (after_rate codec w q k r a)
    unfolding after_rate
    after_rate-Logs k (err e) a = refl
    after_rate-Logs k (ok tt) a = with_signer-Logs k (w.new_signer k) a

    check_key_rules-Logs : (k : Key) (a : Agent) → Logs k a.audit (check_key_rules codec w q k a)
    unfolding check_key_rules
    check_key_rules-Logs k a =
        elim (Bool-cases
          (not (is_nil k.caller_rules) && not (matches_any_rule w.links k.caller_rules q.peer))) [
            | inl barred ↦ rw barred
            | inr free ↦ rw free (after_rate-Logs k _ _)
          ]

    after_caller-Logs :
        (k : Key) (r : Result CallerError (Unit {0})) (a : Agent)
        → Logs k a.audit (after_caller codec w q k r a)
    unfolding after_caller
    after_caller-Logs k (err e) a = refl
    after_caller-Logs k (ok tt) a = check_key_rules-Logs k a

    with_match-Logs :
        (o : Option Key) (a : Agent)
        → (with_match codec w q o a).1.audit ≡ reported codec o (with_match codec w q o a).0 a.audit
    unfolding with_match
    with_match-Logs none a = refl
    with_match-Logs (some k) a = after_caller-Logs k (check_caller w.links a.policy q.peer) a

    with_keys-Logs :
        (keys : Result Text (List Key)) (a : Agent)
        → (with_keys codec w q keys a).1.audit
          ≡ reported codec (matched_in w q keys) (with_keys codec w q keys a).0 a.audit
    unfolding with_keys matched_in
    with_keys-Logs (err e) a = refl
    with_keys-Logs (ok keys) a = with_match-Logs (find_key w.blob q.key_blob keys) a

    -- On every path a request for one of the agent's keys adds one record to the audit log: that key's
    -- label, the caller, and success exactly if a signature is returned, else the error that is
    -- returned. A request for no such key leaves the log alone.
    pub audit-sign_for :
        (a : Agent)
        → (sign_for codec w q a).1.audit
          ≡ reported codec (matched w q) (sign_for codec w q a).0 a.audit
    unfolding sign_for matched
    audit-sign_for a = with_keys-Logs w.keys a

module _ (codec : Codec) where
  -- The requests, one after the other, each with what the world answers to it.
  pub serve : List (World × Request) → Agent → Agent
  serve [] a = a
  serve ((w, q) ∷ rest) a = serve rest (sign_for codec w q a).1

  abbrev records_for : Option Key → Written → ℕ
  records_for none written = 0
  records_for (some k) written = records_of codec written

  -- How many of the requests name a key of the agent and have their record written.
  abbrev pub logged_requests : List (World × Request) → ℕ
  logged_requests [] = 0
  logged_requests ((w, q) ∷ rest) = records_for (matched w q) w.written + logged_requests rest

  -- The records are shorter than 64 KiB, and a write that fails has written nothing.
  abbrev pub AllFit : List (World × Request) → Agent → Type 0
  AllFit [] a = Unit
  AllFit ((w, q) ∷ rest) a =
      ((k : Key) → matched w q ≡ some k → Fits codec (report w q k (sign_for codec w q a).0))
      × Clean codec w.written
      × AllFit rest (sign_for codec w q a).1

  abbrev Chained : ℕ → Option AuditLogger → Type 0
  Chained n log = (lg : AuditLogger) × (log ≡ some lg) × IsChained codec n lg

  module _ (faithful : IsFaithful codec) where
    reported-Chained :
        (w : World) (q : Request) (o : Option Key) (r : Result SignError (List ℕ)) (n : ℕ)
        (log : Option AuditLogger)
        → ((k : Key) → o ≡ some k → Fits codec (report w q k r))
        → Clean codec w.written
        → Chained n log
        → Chained (n + records_for o w.written) (reported w q codec o r log)
    unfolding log_call
    reported-Chained w q none r n log f c (lg, e, v) = (lg, e, rw add-zero v)
    reported-Chained w q (some k) r n log f c (lg, e, v) = (
      Audit.sign codec (report w q k r) w.written lg,
      rw e,
      sign-IsChained codec faithful n (report w q k r) w.written lg (f k refl) c v,
    )

    serve-Chained :
        (rs : List (World × Request)) (a : Agent) (n : ℕ)
        → AllFit rs a
        → Chained n a.audit
        → Chained (n + logged_requests rs) (serve rs a).audit
    unfolding serve
    serve-Chained [] a n h v = rw add-zero v
    serve-Chained ((w, q) ∷ rest) a n (f, c, h) v =
        rw (← add_assoc n (records_for (matched w q) w.written) (logged_requests rest)) (
          serve-Chained rest (sign_for codec w q a).1 (n + records_for (matched w q) w.written) h (
            rw (audit-sign_for w q codec a)
              (reported-Chained w q (matched w q) (sign_for codec w q a).0 n a.audit f c v)))

    -- However many requests an agent with a fresh audit log serves, and whatever their outcomes, its log
    -- verifies as intact, with one chained record for each request that named one of its keys and whose
    -- record was written.
    pub log_verifies :
        (rs : List (World × Request)) (a : Agent)
        → a.audit ≡ some new_stderr_audit_logger
        → AllFit rs a
        → (lg : AuditLogger) × ((serve rs a).audit ≡ some lg)
          × (verify_audit_chain codec (ok lg.file)
              ≡ ok (chain_intact (logged_requests rs) (logged_requests rs)))
    log_verifies rs a fresh h =
        let start : Chained 0 a.audit =
          (new_stderr_audit_logger, fresh, new-IsChained codec faithful) in
        let (lg, e, v) = serve-Chained rs a 0 h start in
        (lg, e, IsChained-verifies codec faithful (logged_requests rs) lg (rw zero-add at v))
