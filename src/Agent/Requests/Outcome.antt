-- ===== src/Agent/Requests/Outcome.antt =====
-- The results of `signFor` of agent.go, and the uses of the key.
use touchid_agent.Prelude.{
  ℕ, Bool, true, false, not, ◌&&◌, List, [], ◌∷◌, ◌++◌, Option, none, some, Result, ok, err, is_nil,
  any, ◌≡◌, ◌↔◌, ◌⊎◌, inl, inr, refl, Bool-cases,
}
use touchid_agent.Text.{Text}
use touchid_agent.Key.{Key}
use touchid_agent.Policy.{CallerError, check_caller, matches_any_rule, matches}
use touchid_agent.Policy.Rate.{RateError}
use touchid_agent.Policy.Authorize.{SomeMatch, any→SomeMatch, SomeMatch→any}
use touchid_agent.Audit.Encoding.{Codec}
use touchid_agent.Agent.Requests.{
  SignError, rejected_rate, not_permitted_for_key, Agent, World, Request, Answer, Effect, use_key,
  lock_biometric, unlock_key, rejected_caller, find_key, matched, matched_in, charge_rate, reject,
  after, with_signature, enclosed, prompt_and_sign, with_signer, after_rate, check_rate_of,
  check_key_rules, after_caller, locked, with_match, with_keys, sign_for,
}

-- The key has no rules of its own, or one that lets the peer in.
abbrev pub OwnRules : World → Request → Key → Type 0
OwnRules w q k = (is_nil k.caller_rules ≡ true) ⊎ SomeMatch w.links k.caller_rules q.peer

-- What remains behind the checks of the caller: the rate, the signer and the signature itself.
abbrev pub Served : World → Request → Key → Agent → List ℕ → Type 0
Served w q k a sig =
    ((charge_rate a.policy k.label w.rate_time).1 ≡ ok tt)
    × (w.new_signer k ≡ none)
    × (w.signature k q.payload ≡ ok sig)

module _ (codec : Codec) (w : World) (q : Request) where
  with_signature-0 :
      (k : Key) (r : Result Text (List ℕ)) (a : Agent) (sig : List ℕ)
      → ((with_signature codec w q k r a).0 ≡ ok sig) ↔ (r ≡ ok sig)
  unfolding with_signature
  with_signature-0 k (ok s) a sig = (λ h. cc, λ h. cc)
  with_signature-0 k (err e) a sig = (λ h. absurd (cc), λ h. absurd (cc))

  enclosed-0 : (b : Bool) (x : Answer) → (enclosed b x).0 ≡ x.0
  unfolding enclosed
  enclosed-0 true x = refl
  enclosed-0 false x = refl

  prompt_and_sign-0 :
      (k : Key) (a : Agent) (sig : List ℕ)
      → ((prompt_and_sign codec w q k a).0 ≡ ok sig) ↔ (w.signature k q.payload ≡ ok sig)
  unfolding prompt_and_sign
  prompt_and_sign-0 k a sig =
      rw enclosed-0 (unfold after in with_signature-0 k (w.signature k q.payload) a sig)

  with_signer-0 :
      (k : Key) (o : Option Text) (a : Agent) (sig : List ℕ)
      → ((with_signer codec w q k o a).0 ≡ ok sig)
        ↔ ((o ≡ none) × (w.signature k q.payload ≡ ok sig))
  unfolding with_signer
  with_signer-0 k (some e) a sig = (λ h. absurd (unfold reject in cc h), λ h. absurd (cc (h.0)))
  with_signer-0 k none a sig =
      (λ h. (refl, (prompt_and_sign-0 k a sig).0 h), λ h. (prompt_and_sign-0 k a sig).1 h.1)

  after_rate-0 :
      (k : Key) (r : Result RateError (Unit {0})) (a : Agent) (sig : List ℕ)
      → ((after_rate codec w q k r a).0 ≡ ok sig)
        ↔ ((r ≡ ok tt) × (w.new_signer k ≡ none) × (w.signature k q.payload ≡ ok sig))
  unfolding after_rate
  after_rate-0 k (err e) a sig = (λ h. absurd (unfold reject in cc h), λ h. absurd (cc (h.0)))
  after_rate-0 k (ok tt) a sig = (
    λ h.
        let (n, s) = (with_signer-0 k (w.new_signer k) a sig).0 (unfold after in h) in (refl, n, s),
    λ h. unfold after in (with_signer-0 k (w.new_signer k) a sig).1 (h.1, h.2),
  )

  check_rate_of-0 :
      (k : Key) (a : Agent) (sig : List ℕ)
      → ((check_rate_of codec w q k a).0 ≡ ok sig) ↔ (
          ((charge_rate a.policy k.label w.rate_time).1 ≡ ok tt)
          × (w.new_signer k ≡ none)
          × (w.signature k q.payload ≡ ok sig))
  unfolding check_rate_of
  check_rate_of-0 k a sig =
      after_rate-0 k (charge_rate a.policy k.label w.rate_time).1
        (record a { policy = (charge_rate a.policy k.label w.rate_time).0 }) sig

  -- The key's own rules let the peer in, or not.
  OwnRules-cases :
      (k : Key)
      → ((not (is_nil k.caller_rules) && not (matches_any_rule w.links k.caller_rules q.peer)
            ≡ true)
          × ¬ OwnRules w q k)
        ⊎ ((not (is_nil k.caller_rules) && not (matches_any_rule w.links k.caller_rules q.peer)
              ≡ false)
            × OwnRules w q k)
  unfolding matches_any_rule
  OwnRules-cases k = elim (Bool-cases (is_nil k.caller_rules)) [
    | inl nil ↦ inr (rw nil, inl nil)
    | inr some_rules ↦ elim (Bool-cases (any (λ r. matches w.links r q.peer) k.caller_rules)) [
      | inl hit ↦ inr (rw (some_rules, hit), inr (any→SomeMatch w.links k.caller_rules q.peer hit))
      | inr miss ↦ inl (
        rw (some_rules, miss),
        λ own. elim own [ inl e ↦ cc | inr m ↦ cc (SomeMatch→any w.links k.caller_rules q.peer m) ],
      )
    ]
  ]

  check_key_rules-0 :
      (k : Key) (a : Agent) (sig : List ℕ)
      → ((check_key_rules codec w q k a).0 ≡ ok sig) ↔ (OwnRules w q k × Served w q k a sig)
  unfolding check_key_rules
  check_key_rules-0 k a sig = elim (OwnRules-cases k) [
    | inl (barred, not_own) ↦
        rw barred (λ h. absurd (unfold reject in cc h), λ h. absurd (not_own h.0))
    | inr (free, own) ↦
        rw free (λ h. (own, (check_rate_of-0 k a sig).0 h), λ h. (check_rate_of-0 k a sig).1 h.1)
  ]

  after_caller-0 :
      (k : Key) (r : Result CallerError (Unit {0})) (a : Agent) (sig : List ℕ)
      → ((after_caller codec w q k r a).0 ≡ ok sig)
        ↔ ((r ≡ ok tt) × OwnRules w q k × Served w q k a sig)
  unfolding after_caller
  after_caller-0 k (err e) a sig = (λ h. absurd (unfold reject in cc h), λ h. absurd (cc (h.0)))
  after_caller-0 k (ok tt) a sig = (
    λ h. let (own, served) = (check_key_rules-0 k a sig).0 h in (refl, own, served),
    λ h. (check_key_rules-0 k a sig).1 (h.1, h.2),
  )

  with_match-0 :
      (o : Option Key) (a : Agent) (sig : List ℕ)
      → ((with_match codec w q o a).0 ≡ ok sig) ↔ (
          (k : Key) × (o ≡ some k)
          × (check_caller w.links a.policy q.peer ≡ ok tt)
          × OwnRules w q k
          × Served w q k a sig)
  unfolding with_match locked
  with_match-0 none a sig = (λ h. absurd (cc h), λ h. absurd (cc (h.1)))
  with_match-0 (some k) a sig = (
    λ h.
        let (c, own, served) =
          (after_caller-0 k (check_caller w.links a.policy q.peer) a sig).0 h in
        (k, refl, c, own, served),
    λ (j, e, c, own, served).
        (after_caller-0 k (check_caller w.links a.policy q.peer) a sig).1
          (c, rw (some_key e) own, rw (some_key e) served),
  )
    where
      some_key : {k j : Key} → some k ≡ some j → k ≡ j
      some_key e = cc

  with_keys-0 :
      (keys : Result Text (List Key)) (a : Agent) (sig : List ℕ)
      → ((with_keys codec w q keys a).0 ≡ ok sig) ↔ (
          (k : Key) × (matched_in w q keys ≡ some k)
          × (check_caller w.links a.policy q.peer ≡ ok tt)
          × OwnRules w q k
          × Served w q k a sig)
  unfolding with_keys matched_in
  with_keys-0 (err e) a sig = (λ h. absurd (cc h), λ h. absurd (cc (h.1)))
  with_keys-0 (ok keys) a sig = with_match-0 (find_key w.blob q.key_blob keys) a sig

  -- A request is answered by a signature exactly when the store's list holds a key with the public key
  -- asked for, and for the first such key: the policy lets the caller pass, the key's own rules, if it
  -- has any, let it pass too, the rate is not exceeded, and the signer of that key signs the payload.
  pub sign_for_iff :
      (a : Agent) (sig : List ℕ)
      → ((sign_for codec w q a).0 ≡ ok sig) ↔ (
          (k : Key) × (matched w q ≡ some k)
          × (check_caller w.links a.policy q.peer ≡ ok tt)
          × OwnRules w q k
          × Served w q k a sig)
  unfolding sign_for matched
  sign_for_iff a sig = with_keys-0 w.keys a sig

-- The key is used, or a prompt may have been raised.
abbrev pub is_use : Effect → Bool
is_use (use_key l) = true
is_use lock_biometric = true
is_use _ = false

abbrev pub Uses : List Effect → Type 0
Uses t = any is_use t ≡ true

module _ (codec : Codec) (w : World) (q : Request) where
  reject-unused : (k : Key) (e : SignError) (a : Agent) → ¬ Uses (reject codec w q k e a).2
  unfolding reject
  reject-unused k e a h = cc

  after_rate-used :
      (k : Key) (r : Result RateError (Unit {0})) (a : Agent)
      → Uses (after_rate codec w q k r a).2
      → r ≡ ok tt
  unfolding after_rate
  after_rate-used k (ok tt) a h = refl
  after_rate-used k (err e) a h = absurd (reject-unused k (rejected_rate k.label e) a h)

  check_key_rules-used :
      (k : Key) (a : Agent)
      → Uses (check_key_rules codec w q k a).2
      → OwnRules w q k × ((charge_rate a.policy k.label w.rate_time).1 ≡ ok tt)
  unfolding check_key_rules
  check_key_rules-used k a h = elim (OwnRules-cases codec w q k) [
    | inl (barred, not_own) ↦
        absurd (reject-unused k (not_permitted_for_key k.label q.peer) a (rw barred at h))
    | inr (free, own) ↦ (
      own,
      unfold check_rate_of in
          after_rate-used k (charge_rate a.policy k.label w.rate_time).1
            (record a { policy = (charge_rate a.policy k.label w.rate_time).0 }) (rw free at h),
    )
  ]

  after_caller-used :
      (k : Key) (r : Result CallerError (Unit {0})) (a : Agent)
      → Uses (after_caller codec w q k r a).2
      → (r ≡ ok tt) × OwnRules w q k × ((charge_rate a.policy k.label w.rate_time).1 ≡ ok tt)
  unfolding after_caller
  after_caller-used k (ok tt) a h =
      let (own, rate) = check_key_rules-used k a h in (refl, own, rate)
  after_caller-used k (err e) a h = absurd (reject-unused k (rejected_caller k.label e) a h)

  Uses-locked : (l : Text) (x : Answer) → Uses (locked l x).2 → Uses x.2
  unfolding locked
  Uses-locked l (r, a, t) h = uses_front t (unlock_key l ∷ []) refl h
    where
      uses_front : (t u : List Effect) → any is_use u ≡ false → Uses (t ++ u) → Uses t
      uses_front [] u n h = absurd (cc)
      uses_front (e ∷ t) u n h = elim (Bool-cases (is_use e)) [
        | inl s ↦ rw s
        | inr s ↦ rw s (uses_front t u n (rw s at h))
      ]

  with_match-used :
      (o : Option Key) (a : Agent)
      → Uses (with_match codec w q o a).2
      → (k : Key) × (o ≡ some k)
        × (check_caller w.links a.policy q.peer ≡ ok tt)
        × OwnRules w q k
        × ((charge_rate a.policy k.label w.rate_time).1 ≡ ok tt)
  unfolding with_match
  with_match-used none a h = absurd (cc)
  with_match-used (some k) a h =
      let x = after_caller codec w q k (check_caller w.links a.policy q.peer) a in
      let (c, own, rate) =
        after_caller-used k (check_caller w.links a.policy q.peer) a (Uses-locked k.label x h) in
      (k, refl, c, own, rate)

  with_keys-used :
      (keys : Result Text (List Key)) (a : Agent)
      → Uses (with_keys codec w q keys a).2
      → (k : Key) × (matched_in w q keys ≡ some k)
        × (check_caller w.links a.policy q.peer ≡ ok tt)
        × OwnRules w q k
        × ((charge_rate a.policy k.label w.rate_time).1 ≡ ok tt)
  unfolding with_keys matched_in
  with_keys-used (err e) a h = absurd (cc)
  with_keys-used (ok keys) a h = with_match-used (find_key w.blob q.key_blob keys) a h

  -- No prompt is raised and no key is used, not even in vain, unless the policy lets the caller pass, the
  -- rules of the key asked for let it pass, and that key's rate is not exceeded.
  pub use_is_authorized :
      (a : Agent)
      → Uses (sign_for codec w q a).2
      → (k : Key) × (matched w q ≡ some k)
        × (check_caller w.links a.policy q.peer ≡ ok tt)
        × OwnRules w q k
        × ((charge_rate a.policy k.label w.rate_time).1 ≡ ok tt)
  unfolding sign_for matched
  use_is_authorized a h = with_keys-used w.keys a h
