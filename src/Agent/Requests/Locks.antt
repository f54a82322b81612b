-- ===== src/Agent/Requests/Locks.antt =====
-- The locks of `signFor` of agent.go, along the trace of a request.
pub mod Threads
pub mod Owners
pub mod Exclusion
pub mod Completion
use touchid_agent.Prelude.{
  ℕ, Bool, true, false, not, ◌&&◌, List, [], ◌∷◌, ◌++◌, Option, none, some, Result, ok, err, ◌≡◌,
  inl, inr, refl, ap, ◌∙◌, Bool-cases, is_nil, if◌then◌else◌,
}
use touchid_agent.Text.{Text, equal, equal_refl}
use touchid_agent.Key.{Key}
use touchid_agent.Policy.{CallerError, check_caller, matches_any_rule}
use touchid_agent.Policy.Rate.{RateError}
use touchid_agent.Audit.Encoding.{Codec}
use touchid_agent.Agent.Failure.{classify_sign_error}
use touchid_agent.Agent.Stall.{PromptEnd, completed, failed, note_biometric_outcome}
use touchid_agent.Agent.Requests.{
  SignError, sign_failed, no_signer, rejected_rate, rejected_caller, not_permitted_for_key, Agent,
  World, Request, Answer, Effect, peer_name, lock_key, unlock_key, lock_biometric, unlock_biometric,
  use_key, audited, notify_waiting, notify_signed, notify_stall, find_key, matched, matched_in,
  charge_rate, reject, accept, note, warned, after, with_signature, enclosed, waiting,
  prompt_and_sign, with_signer, after_rate, check_rate_of, check_key_rules, after_caller, locked,
  with_match, with_keys, sign_for,
}

-- Which locks the request holds.
pub data Held : Type 0 where
  free : Held
  key_held : Text → Held
  prompt_held : Text → Held

-- One effect, for a key that requires touch or not; `none` is a breach of the discipline: a lock taken
-- twice or out of order or given back by another, the key used without its lock, or without the
-- prompt's lock where touch is required, or a record written when no key is locked.
pub step : Effect → Held → Bool → Option Held
step (lock_key l) free touch = some (key_held l)
step (unlock_key l) (key_held k) touch = if equal k l then some free else none
step lock_biometric (key_held k) true = some (prompt_held k)
step unlock_biometric (prompt_held k) touch = some (key_held k)
step (use_key l) (key_held k) false = if equal k l then some (key_held k) else none
step (use_key l) (prompt_held k) true = if equal k l then some (prompt_held k) else none
step (audited l b) (key_held k) touch = if equal k l then some (key_held k) else none
step (audited l b) (prompt_held k) touch = if equal k l then some (prompt_held k) else none
step (notify_waiting l) h touch = some h
step (notify_signed l n) h touch = some h
step notify_stall h touch = some h
step _ h touch = none

abbrev pub run : Bool → Option Held → List Effect → Option Held
run touch none t = none
run touch (some h) [] = some h
run touch (some h) (e ∷ t) = run touch (step e h touch) t

run-append :
    (touch : Bool) (h : Option Held) (t u : List Effect)
    → run touch h (t ++ u) ≡ run touch (run touch h t) u
run-append touch none t u = refl
run-append touch (some h) [] u = refl
run-append touch (some h) (e ∷ t) u = run-append touch (step e h touch) t u

run-step :
    (touch : Bool) (h h' : Held) (e : Effect) (t : List Effect)
    → step e h touch ≡ some h'
    → run touch (some h) (e ∷ t) ≡ run touch (some h') t
run-step touch h h' e t s = ap (λ x. run touch x t) s

-- The lock under which the key is used.
abbrev inner : Bool → Text → Held
inner true l = prompt_held l
inner false l = key_held l

step-audited :
    (touch : Bool) (l : Text) (b : Bool) → step (audited l b) (key_held l) touch ≡ some (key_held l)
unfolding step
step-audited true l b = rw (equal_refl l)
step-audited false l b = rw (equal_refl l)

step-audited_inner :
    (touch : Bool) (l : Text) (b : Bool)
    → step (audited l b) (inner touch l) touch ≡ some (inner touch l)
unfolding step
step-audited_inner true l b = rw (equal_refl l)
step-audited_inner false l b = rw (equal_refl l)

step-unlock_key : (touch : Bool) (l : Text) → step (unlock_key l) (key_held l) touch ≡ some free
unfolding step
step-unlock_key true l = rw (equal_refl l)
step-unlock_key false l = rw (equal_refl l)

step-use_key :
    (touch : Bool) (l : Text) → step (use_key l) (inner touch l) touch ≡ some (inner touch l)
unfolding step
step-use_key true l = rw (equal_refl l)
step-use_key false l = rw (equal_refl l)

-- The effects leave the locks as they were.
abbrev Keeps : Bool → Held → List Effect → Type 0
Keeps touch h t = run touch (some h) t ≡ some h

Keeps-append :
    (touch : Bool) (h : Held) (t u : List Effect)
    → Keeps touch h t
    → Keeps touch h u
    → Keeps touch h (t ++ u)
Keeps-append touch h t u a b = run-append touch (some h) t u ∙ rw a b

module _ (codec : Codec) (w : World) (q : Request) where
  audited-Keeps :
      (touch : Bool) (l : Text) (b : Bool) (rest : List Effect)
      → Keeps touch (inner touch l) rest
      → Keeps touch (inner touch l) (audited l b ∷ rest)
  audited-Keeps touch l b rest h =
      run-step touch (inner touch l) (inner touch l) _ rest (step-audited_inner touch l b) ∙ h

  reject-Keeps :
      (touch : Bool) (k : Key) (e : SignError) (a : Agent)
      → Keeps touch (inner touch k.label) (reject codec w q k e a).2
  unfolding reject
  reject-Keeps touch k e a = audited-Keeps touch k.label false [] refl

  accept-Keeps :
      (touch : Bool) (k : Key) (sig : List ℕ) (a : Agent)
      → Keeps touch (inner touch k.label) (accept codec w q k sig a).2
  unfolding accept step
  accept-Keeps touch k sig a =
      audited-Keeps touch k.label true (notify_signed k.label (peer_name q.peer) ∷ []) refl

  note-Keeps :
      (touch : Bool) (h : Held) (k : Key) (end : PromptEnd) (a : Agent)
      → Keeps touch h (note codec w q k end a).1
  unfolding step warned note
  note-Keeps touch h k end a = elim (Bool-cases k.require_touch) [
    | inr e ↦ rw e
    | inl e ↦ elim (Bool-cases (note_biometric_outcome end w.prompt_time a.stall).1) [
      | inl warn ↦ rw (e, warn)
      | inr quiet ↦ rw (e, quiet)
    ]
  ]

  with_signature-Keeps :
      (touch : Bool) (k : Key) (r : Result Text (List ℕ)) (a : Agent)
      → Keeps touch (inner touch k.label) (with_signature codec w q k r a).2
  unfolding with_signature after
  with_signature-Keeps touch k (ok sig) a =
      let (a', t) = note codec w q k completed a in
      Keeps-append touch (inner touch k.label) t (accept codec w q k sig a').2
        (note-Keeps touch (inner touch k.label) k completed a) (accept-Keeps touch k sig a')
  with_signature-Keeps touch k (err e) a =
      let (a', t) = note codec w q k (failed e) a in
      let why : SignError = sign_failed k.label (classify_sign_error e) e in
      Keeps-append touch (inner touch k.label) t (reject codec w q k why a').2
        (note-Keeps touch (inner touch k.label) k (failed e) a) (reject-Keeps touch k why a')

  used-Keeps :
      (touch : Bool) (l : Text) (x : Answer)
      → Keeps touch (inner touch l) x.2
      → Keeps touch (inner touch l) (after (use_key l ∷ []) x).2
  unfolding after
  used-Keeps touch l x h =
      run-step touch (inner touch l) (inner touch l) (use_key l) x.2 (step-use_key touch l) ∙ h

  enclosed-Keeps :
      (touch : Bool) (l : Text) (x : Answer)
      → Keeps touch (inner touch l) x.2
      → Keeps touch (key_held l) (enclosed touch x).2
  unfolding enclosed step
  enclosed-Keeps true l x h =
      run-append true (some (prompt_held l)) x.2 (unlock_biometric ∷ []) ∙ rw h
  enclosed-Keeps false l x h = h

  prompt_and_sign-Keeps :
      (k : Key) (a : Agent)
      → Keeps k.require_touch (key_held k.label) (prompt_and_sign codec w q k a).2
  unfolding prompt_and_sign
  prompt_and_sign-Keeps k a =
      let signed = with_signature codec w q k (w.signature k q.payload) a in
      enclosed-Keeps k.require_touch k.label (after (use_key k.label ∷ []) signed) (
        used-Keeps k.require_touch k.label signed
          (with_signature-Keeps k.require_touch k (w.signature k q.payload) a))

  rejected-Keeps :
      (touch : Bool) (k : Key) (e : SignError) (a : Agent)
      → Keeps touch (key_held k.label) (reject codec w q k e a).2
  unfolding reject
  rejected-Keeps touch k e a =
      run-step touch (key_held k.label) (key_held k.label) _ [] (step-audited touch k.label false)

  with_signer-Keeps :
      (k : Key) (o : Option Text) (a : Agent)
      → Keeps k.require_touch (key_held k.label) (with_signer codec w q k o a).2
  unfolding with_signer
  with_signer-Keeps k (some e) a = rejected-Keeps k.require_touch k (no_signer k.label e) a
  with_signer-Keeps k none a = prompt_and_sign-Keeps k a

  waiting-Keeps : (touch : Bool) (h : Held) (k : Key) → Keeps touch h (waiting codec w q k)
  unfolding waiting step
  waiting-Keeps touch h k = elim (Bool-cases w.waited) [ inl e ↦ rw e | inr e ↦ rw e ]

  after_rate-Keeps :
      (k : Key) (r : Result RateError (Unit {0})) (a : Agent)
      → Keeps k.require_touch (key_held k.label) (after_rate codec w q k r a).2
  unfolding after_rate after
  after_rate-Keeps k (err e) a = rejected-Keeps k.require_touch k (rejected_rate k.label e) a
  after_rate-Keeps k (ok tt) a =
      Keeps-append k.require_touch (key_held k.label) (waiting codec w q k)
        (with_signer codec w q k (w.new_signer k) a).2
        (waiting-Keeps k.require_touch (key_held k.label) k)
        (with_signer-Keeps k (w.new_signer k) a)

  check_rate_of-Keeps :
      (k : Key) (a : Agent)
      → Keeps k.require_touch (key_held k.label) (check_rate_of codec w q k a).2
  unfolding check_rate_of
  check_rate_of-Keeps k a =
      let (policy, r) = charge_rate a.policy k.label w.rate_time in
      after_rate-Keeps k r (record a { policy = policy })

  check_key_rules-Keeps :
      (k : Key) (a : Agent)
      → Keeps k.require_touch (key_held k.label) (check_key_rules codec w q k a).2
  unfolding check_key_rules
  check_key_rules-Keeps k a =
      elim (Bool-cases
        (not (is_nil k.caller_rules) && not (matches_any_rule w.links k.caller_rules q.peer))) [
          | inl barred ↦
              rw barred (rejected-Keeps k.require_touch k (not_permitted_for_key k.label q.peer) a)
          | inr free_to ↦ rw free_to (check_rate_of-Keeps k a)
        ]

  after_caller-Keeps :
      (k : Key) (r : Result CallerError (Unit {0})) (a : Agent)
      → Keeps k.require_touch (key_held k.label) (after_caller codec w q k r a).2
  unfolding after_caller
  after_caller-Keeps k (err e) a = rejected-Keeps k.require_touch k (rejected_caller k.label e) a
  after_caller-Keeps k (ok tt) a = check_key_rules-Keeps k a

  abbrev pub touch_of : Option Key → Bool
  touch_of none = false
  touch_of (some k) = k.require_touch

  locked-Keeps :
      (touch : Bool) (l : Text) (x : Answer)
      → Keeps touch (key_held l) x.2
      → Keeps touch free (locked l x).2
  unfolding locked step
  locked-Keeps touch l x h =
      rw (run-append, h)
        (run-step touch (key_held l) free (unlock_key l) [] (step-unlock_key touch l))

  with_match-Keeps :
      (o : Option Key) (a : Agent) → Keeps (touch_of o) free (with_match codec w q o a).2
  unfolding with_match
  with_match-Keeps none a = refl
  with_match-Keeps (some k) a =
      locked-Keeps k.require_touch k.label
        (after_caller codec w q k (check_caller w.links a.policy q.peer) a)
        (after_caller-Keeps k (check_caller w.links a.policy q.peer) a)

  with_keys-Keeps :
      (keys : Result Text (List Key)) (a : Agent)
      → Keeps (touch_of (matched_in w q keys)) free (with_keys codec w q keys a).2
  unfolding with_keys matched_in
  with_keys-Keeps (err e) a = refl
  with_keys-Keeps (ok keys) a = with_match-Keeps (find_key w.blob q.key_blob keys) a

  -- On every path the effects of a request keep the discipline of the locks and give back what they
  -- took: the key is used and its records are written under the key's own lock; the prompt's lock is
  -- taken inside it if the key requires touch, and then the key is used under it, and not otherwise.
  pub sign_for-disciplined :
      (a : Agent) → run (touch_of (matched w q)) (some free) (sign_for codec w q a).2 ≡ some free
  unfolding sign_for matched
  sign_for-disciplined a = with_keys-Keeps w.keys a
