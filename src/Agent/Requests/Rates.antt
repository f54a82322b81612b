-- ===== src/Agent/Requests/Rates.antt =====
-- The rate limit of policy.go as `signFor` of agent.go applies it, over the requests that are served.
use touchid_agent.Prelude.{
  ℕ, ◌≤◌, ◌<◌, pos, Bool, true, false, not, ◌&&◌, List, [], ◌∷◌, Option, none, some, Result, ok,
  err, count, ◌≡◌, ◌≢◌, inl, inr, refl, sym, ◌∙◌, arith, Bool-cases, is_nil,
}
use touchid_agent.Text.{Text}
use touchid_agent.Key.{Key}
use touchid_agent.Policy.{
  CallerError, CallerRule, PeerPolicy, new_peer_policy, rate_limit_ceiling, check_caller,
  matches_any_rule,
}
use touchid_agent.Policy.Rate.{RateError, check_rate}
use touchid_agent.Policy.Rate.Window.{is_ok, admissions, signed_in, IsAscending, rate_window}
use touchid_agent.Audit.Encoding.{Codec}
use touchid_agent.Agent.Requests.{
  SignError, Agent, World, Request, Answer, find_key, matched, matched_in, charge_rate, charged,
  reject, note, after, with_signature, enclosed, prompt_and_sign, with_signer, after_rate,
  check_rate_of, check_key_rules, after_caller, locked, with_match, with_keys, sign_for,
}
use touchid_agent.Agent.Requests.Outcome.{sign_for_iff}

-- A request has left the policy alone and was not answered by a signature, or its key was charged.
pub data Charging (w : World) (o : Option Key) (before : Option PeerPolicy) (x : Answer)
    : Type 0 where
  spared : x.1.policy ≡ before → ((sig : List ℕ) → x.0 ≢ ok sig) → Charging w o before x
  charges :
      (k : Key)
      → o ≡ some k
      → x.1.policy ≡ (charge_rate before k.label w.rate_time).0
      → Charging w o before x

module _ (codec : Codec) (w : World) (q : Request) where
  policy-with_signature :
      (k : Key) (r : Result Text (List ℕ)) (a : Agent)
      → (with_signature codec w q k r a).1.policy ≡ a.policy
  unfolding with_signature note
  policy-with_signature k (ok sig) a = elim (Bool-cases k.require_touch) [
    | inl e ↦ rw e
    | inr e ↦ rw e
  ]
  policy-with_signature k (err m) a = elim (Bool-cases k.require_touch) [
    | inl e ↦ rw e
    | inr e ↦ rw e
  ]

  agent-enclosed : (b : Bool) (x : Answer) → (enclosed b x).1 ≡ x.1
  unfolding enclosed
  agent-enclosed true x = refl
  agent-enclosed false x = refl

  policy-prompt_and_sign :
      (k : Key) (a : Agent) → (prompt_and_sign codec w q k a).1.policy ≡ a.policy
  unfolding prompt_and_sign
  policy-prompt_and_sign k a =
      rw (agent-enclosed k.require_touch)
        (unfold after in policy-with_signature k (w.signature k q.payload) a)

  policy-with_signer :
      (k : Key) (o : Option Text) (a : Agent) → (with_signer codec w q k o a).1.policy ≡ a.policy
  unfolding with_signer
  policy-with_signer k (some e) a = unfold reject in refl
  policy-with_signer k none a = policy-prompt_and_sign k a

  policy-after_rate :
      (k : Key) (r : Result RateError (Unit {0})) (a : Agent)
      → (after_rate codec w q k r a).1.policy ≡ a.policy
  unfolding after_rate
  policy-after_rate k (err e) a = unfold reject in refl
  policy-after_rate k (ok u) a = unfold after in policy-with_signer k (w.new_signer k) a

  policy-check_rate_of :
      (k : Key) (a : Agent)
      → (check_rate_of codec w q k a).1.policy ≡ (charge_rate a.policy k.label w.rate_time).0
  unfolding check_rate_of
  policy-check_rate_of k a =
      policy-after_rate k (charge_rate a.policy k.label w.rate_time).1
        (record a { policy = (charge_rate a.policy k.label w.rate_time).0 })

  reject-Charging :
      (k : Key) (e : SignError) (a : Agent) → Charging w (some k) a.policy (reject codec w q k e a)
  unfolding reject
  reject-Charging k e a = spared refl (λ sig h. cc)

  check_key_rules-Charging :
      (k : Key) (a : Agent) → Charging w (some k) a.policy (check_key_rules codec w q k a)
  unfolding check_key_rules
  check_key_rules-Charging k a =
      elim (Bool-cases
        (not (is_nil k.caller_rules) && not (matches_any_rule w.links k.caller_rules q.peer))) [
          | inl closed ↦ rw closed (reject-Charging k _ a)
          | inr free ↦ rw free (charges k refl (policy-check_rate_of k a))
        ]

  after_caller-Charging :
      (k : Key) (r : Result CallerError (Unit {0})) (a : Agent)
      → Charging w (some k) a.policy (after_caller codec w q k r a)
  unfolding after_caller
  after_caller-Charging k (err e) a = reject-Charging k _ a
  after_caller-Charging k (ok u) a = check_key_rules-Charging k a

  locked-Charging :
      (o : Option Key) (before : Option PeerPolicy) (label : Text) (x : Answer)
      → Charging w o before x
      → Charging w o before (locked label x)
  unfolding locked
  locked-Charging o before label x (spared p h) = spared p h
  locked-Charging o before label x (charges k e p) = charges k e p

  with_match-Charging :
      (o : Option Key) (a : Agent) → Charging w o a.policy (with_match codec w q o a)
  unfolding with_match
  with_match-Charging none a = spared refl (λ sig h. cc)
  with_match-Charging (some k) a =
      locked-Charging (some k) a.policy k.label _
        (after_caller-Charging k (check_caller w.links a.policy q.peer) a)

  with_keys-Charging :
      (r : Result Text (List Key)) (a : Agent)
      → Charging w (matched_in w q r) a.policy (with_keys codec w q r a)
  unfolding with_keys matched_in
  with_keys-Charging (err e) a = spared refl (λ sig h. cc)
  with_keys-Charging (ok keys) a = with_match-Charging (find_key w.blob q.key_blob keys) a

  sign_for-Charging : (a : Agent) → Charging w (matched w q) a.policy (sign_for codec w q a)
  unfolding sign_for matched
  sign_for-Charging a = with_keys-Charging w.keys a

-- The key and the time of a request that was answered by a signature, before those of later requests.
abbrev pub onto_signed :
    Option Key → ℕ → Result SignError (List ℕ) → List (Text × ℕ) → List (Text × ℕ)
onto_signed (some k) now (ok sig) later = (k.label, now) ∷ later
onto_signed _ now r later = later

-- The rate check does not run backwards from one request to the next.
abbrev pub InOrder : ℕ → List (World × Request) → Type 0
InOrder last [] = Unit
InOrder last ((w, q) ∷ rest) = (last ≤ w.rate_time) × InOrder w.rate_time rest

IsAscending-earlier :
    (last now : ℕ) (reqs : List (Text × ℕ))
    → last ≤ now
    → IsAscending now reqs
    → IsAscending last reqs
IsAscending-earlier last now [] le a = tt
IsAscending-earlier last now (r ∷ rest) le (a, as') = (omega arith, as')

charge_rate-some :
    (p : PeerPolicy) (label : Text) (now : ℕ)
    → charge_rate (some p) label now ≡ (some (check_rate p label now).0, (check_rate p label now).1)
unfolding charge_rate charged
charge_rate-some p label now = refl

same_key : {k k' : Key} → ◌≡◌ {A = Option Key} (some k) (some k') → k ≡ k'
same_key e = cc

accepted : (r : Result RateError (Unit {0})) → r ≡ ok tt → is_ok r ≡ true
accepted r e = rw e refl

module _ (codec : Codec) where
  -- The requests that the agent answers by a signature, one after the other.
  unfoldable pub signed_requests : List (World × Request) → Agent → List (Text × ℕ)
  signed_requests [] a = []
  signed_requests ((w, q) ∷ rest) a =
      onto_signed (matched w q) w.rate_time (sign_for codec w q a).0
        (signed_requests rest (sign_for codec w q a).1)

  -- The charges that the rate limiter of policy `p` meets stand above the signatures.
  record Charged (last : ℕ) (p : PeerPolicy) (signed : List (Text × ℕ)) : Type 0 where
    reqs : List (Text × ℕ)
    ascending : IsAscending last reqs
    covered :
        (label : Text) (e : ℕ)
        → count (signed_in label e) signed ≤ count (signed_in label e) (admissions p reqs)

  not_signed :
      (o : Option Key) (now : ℕ) (r : Result SignError (List ℕ)) (later : List (Text × ℕ))
      → ((sig : List ℕ) → r ≢ ok sig)
      → onto_signed o now r later ≡ later
  not_signed none now r later h = refl
  not_signed (some k) now (err e) later h = refl
  not_signed (some k) now (ok sig) later h = absurd (h sig refl)

  -- A signature for `k` is one that the limiter admits.
  admitted :
      (w : World) (q : Request) (a : Agent) (p : PeerPolicy) (k : Key) (sig : List ℕ)
      → a.policy ≡ some p
      → matched w q ≡ some k
      → (sign_for codec w q a).0 ≡ ok sig
      → is_ok (check_rate p k.label w.rate_time).1 ≡ true
  admitted w q a p k sig e m h =
      let (k', found, passes, own, served) = (sign_for_iff codec w q a sig).0 h in
      let same : k' ≡ k = same_key (sym found ∙ m) in
      accepted (check_rate p k.label w.rate_time).1
        (rw (e, same, charge_rate-some p k.label w.rate_time) at served.0)

  charged_request :
      (last : ℕ) (w : World) (k : Key) (p : PeerPolicy) (r : Result SignError (List ℕ))
      (later : List (Text × ℕ))
      → last ≤ w.rate_time
      → ((sig : List ℕ) → r ≡ ok sig → is_ok (check_rate p k.label w.rate_time).1 ≡ true)
      → Charged w.rate_time (check_rate p k.label w.rate_time).0 later
      → Charged last p (onto_signed (some k) w.rate_time r later)
  unfolding admissions
  charged_request last w k p (err e) later le h c = record {
    reqs = (k.label, w.rate_time) ∷ c.reqs;
    ascending = (le, c.ascending);
    covered = λ label e'. ground (arith, c.covered label e');
  }
  charged_request last w k p (ok sig) later le h c = record {
    reqs = (k.label, w.rate_time) ∷ c.reqs;
    ascending = (le, c.ascending);
    covered = λ label e'. ground (arith, c.covered label e', h sig refl);
  }

  signed_requests-Charged :
      (last : ℕ) (rs : List (World × Request)) (a : Agent) (p : PeerPolicy)
      → a.policy ≡ some p
      → InOrder last rs
      → Charged last p (signed_requests rs a)
  unfolding signed_requests
  signed_requests-Charged last [] a p e o = record {
    reqs = [];
    ascending = tt;
    covered = λ l t. unfold admissions in omega arith;
  }
  signed_requests-Charged last ((w, q) ∷ rest) a p e (le, o) =
      elim (sign_for-Charging codec w q a) [
        | spared same none_signed ↦
            let c =
              signed_requests-Charged w.rate_time rest (sign_for codec w q a).1 p (same ∙ e) o in
            rw (not_signed (matched w q) w.rate_time (sign_for codec w q a).0 _ none_signed)
              (record {
                reqs = c.reqs;
                ascending = IsAscending-earlier last w.rate_time c.reqs le c.ascending;
                covered = c.covered;
              })
        | charges k found now ↦ rw found (
            charged_request last w k p (sign_for codec w q a).0 _ le
              (λ sig h. admitted w q a p k sig e found h)
              (signed_requests-Charged w.rate_time rest (sign_for codec w q a).1
                (check_rate p k.label w.rate_time).0
                (now ∙ (rw (e, charge_rate-some p k.label w.rate_time) refl)) o))
      ]

  -- Whatever requests an agent serves, one after the other, as long as the clock never runs backwards:
  -- where its policy is new and rate limiting is on, then of the requests for one key whose rate is checked
  -- in the minute that ends at any moment, at most as many as the configured limit, and at most the
  -- ceiling, are answered by a signature. (The signatures themselves may come later, where a touch is
  -- awaited.)
  pub sign_for_window :
      (enforce : Bool) (limit : ℕ) (extra : List CallerRule) (rs : List (World × Request))
      (a : Agent) (label : Text) (e : ℕ)
      → 0 < limit
      → a.policy ≡ some (new_peer_policy enforce (pos limit) extra)
      → InOrder 0 rs
      → (count (signed_in label e) (signed_requests rs a) ≤ limit)
        × (count (signed_in label e) (signed_requests rs a) ≤ rate_limit_ceiling)
  sign_for_window enforce limit extra rs a label e h fresh o =
      let c = signed_requests-Charged 0 rs a (new_peer_policy enforce (pos limit) extra) fresh o in
      let (below, under) = rate_window enforce limit extra c.reqs label e h c.ascending in
      (omega (arith, c.covered label e), omega (arith, c.covered label e))
