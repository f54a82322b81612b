-- ===== src/Policy/Rate/Window.antt =====
-- `CheckRate` of policy.go over a sequence of requests: those that pass in a sliding minute.
use touchid_agent.Prelude.{
  ℕ, ◌+◌, ◌≤◌, ◌<◌, Bool, true, false, ◌&&◌, List, [], ◌∷◌, Result, ok, err, pos, ◌≡◌, refl, arith,
  ltb, leb, length, length-append, keep, count, count-append, count-le-length, Bool-cases, leb→le,
  leb-false, inl, inr, if◌then◌else◌,
}
use touchid_agent.Text.{Text, equal, equal_iff}
use touchid_agent.Policy.{CallerRule, PeerPolicy, new_peer_policy, rate_limit_ceiling}
use touchid_agent.Policy.Rate.{
  minute, is_recent, allow, bucket_of, store_bucket, RateError, charge, check_rate,
}

-- The time lies in the minute that ends at `e`.
abbrev pub in_window : ℕ → ℕ → Bool
in_window e t = leb t e && ltb e (t + minute)

-- The pruning of a bucket loses nothing that a window ending now or later can hold.
count-keep :
    (e now : ℕ) (times : List ℕ)
    → now ≤ e
    → count (in_window e) (keep (is_recent now) times) ≡ count (in_window e) times
count-keep e now [] h = refl
count-keep e now (t ∷ times) h = ground (arith, count-keep e now times h)

-- What one call of `allow` does to the count of a window that ends now or later.
count-allow :
    (limit e now : ℕ) (times : List ℕ)
    → now ≤ e
    → count (in_window e) (allow limit now times).0
      ≡ count (in_window e) times
        + (if (allow limit now times).1 then count (in_window e) (now ∷ []) else 0)
unfolding allow
count-allow limit e now times h =
    elim (Bool-cases (leb limit (length (keep (is_recent now) times)))) [
      | inl full ↦ rw full (omega (arith, count-keep e now times h))
      | inr room ↦ rw room (
          omega (
            arith,
            count-keep e now times h,
            count-append (in_window e) (keep (is_recent now) times) (now ∷ []),
          ))
    ]

-- The bucket never outgrows the limit.
length-keep-le : (p : ℕ → Bool) (times : List ℕ) → length (keep p times) ≤ length times
length-keep-le p [] = omega arith
length-keep-le p (t ∷ times) = ground (arith, length-keep-le p times)

length-allow :
    (limit now : ℕ) (times : List ℕ)
    → length times ≤ limit
    → length (allow limit now times).0 ≤ limit
unfolding allow
length-allow limit now times h = ground (
  arith,
  length-keep-le (is_recent now) times,
  length-append (keep (is_recent now) times) (now ∷ []),
)

bucket_of-store_bucket :
    (l label : Text) (b : List ℕ) (rates : List (Text × List ℕ))
    → bucket_of label (store_bucket l b rates)
      ≡ (if equal l label then b else bucket_of label rates)
unfolding bucket_of store_bucket
bucket_of-store_bucket l label b [] = refl
bucket_of-store_bucket l label b ((k, old) ∷ rates) = ground (
  arith,
  equal_iff k l,
  equal_iff k label,
  equal_iff l label,
  bucket_of-store_bucket l label b rates,
)

abbrev pub is_ok : Result RateError (Unit {0}) → Bool
is_ok (ok u) = true
is_ok (err e) = false

-- The requests, in order, that `CheckRate` lets through: labels with their times.
unfoldable pub admissions : PeerPolicy → List (Text × ℕ) → List (Text × ℕ)
admissions p [] = []
admissions p (r ∷ rest) =
    let (p', result) = check_rate p r.0 r.1 in
    let later = admissions p' rest in if is_ok result then r ∷ later else later

abbrev pub signed_in : Text → ℕ → Text × ℕ → Bool
signed_in label e r = equal r.0 label && in_window e r.1

-- The clock never runs backwards.
abbrev pub IsAscending : ℕ → List (Text × ℕ) → Type 0
IsAscending last [] = Unit
IsAscending last (r ∷ rest) = (last ≤ r.1) × IsAscending r.1 rest

count-later :
    (label : Text) (e now : ℕ) (p : PeerPolicy) (reqs : List (Text × ℕ))
    → e < now
    → IsAscending now reqs
    → count (signed_in label e) (admissions p reqs) ≡ 0
unfolding admissions
count-later label e now p [] h a = refl
count-later label e now p (r ∷ rest) h (a, as') =
    ground (arith, count-later label e r.1 (check_rate p r.0 r.1).0 rest)

module _ (limit : ℕ) (positive : 0 < limit) where
  check_rate_lem :
      (p : PeerPolicy) (l : Text) (now : ℕ)
      → p.rate_limit ≡ pos limit
      → check_rate p l now ≡ charge p l (allow limit now (bucket_of l p.rates))
  unfolding check_rate
  check_rate_lem p l now h = ground arith

  module _ (p : PeerPolicy) (l : Text) (now : ℕ) (h : p.rate_limit ≡ pos limit) where
    rate_limit-check_rate : (check_rate p l now).0.rate_limit ≡ pos limit
    unfolding charge
    rate_limit-check_rate = rw (check_rate_lem p l now h) h

    is_ok-check_rate : is_ok (check_rate p l now).1 ≡ (allow limit now (bucket_of l p.rates)).1
    unfolding charge
    is_ok-check_rate = rw (check_rate_lem p l now h) (ground arith)

    bucket_of-check_rate :
        (label : Text)
        → bucket_of label (check_rate p l now).0.rates ≡ (
            if equal l label
            then (allow limit now (bucket_of l p.rates)).0
            else bucket_of label p.rates)
    unfolding charge
    bucket_of-check_rate label =
        rw (check_rate_lem p l now h) (bucket_of-store_bucket l label _ p.rates)

    length-bucket_of :
        (label : Text)
        → length (bucket_of label p.rates) ≤ limit
        → length (bucket_of label (check_rate p l now).0.rates) ≤ limit
    length-bucket_of label b = rw (bucket_of-check_rate label) (elim (Bool-cases (equal l label)) [
      | inl same ↦
          rw (same, (equal_iff l label).0 same) (length-allow limit now (bucket_of label p.rates) b)
      | inr other ↦ rw other b
    ])

    -- One request, and the window of a label that ends at its time or later.
    count-check_rate :
        (label : Text) (e : ℕ)
        → now ≤ e
        → count (in_window e) (bucket_of label (check_rate p l now).0.rates)
          ≡ count (in_window e) (bucket_of label p.rates)
            + (if is_ok (check_rate p l now).1
                then count (signed_in label e) ((l, now) ∷ [])
                else 0)
    count-check_rate label e le =
        rw (bucket_of-check_rate label, is_ok-check_rate)
          (elim (Bool-cases (equal l label)) [
            | inl same ↦
                rw (same, (equal_iff l label).0 same)
                  (ground (arith, count-allow limit e now (bucket_of label p.rates) le))
            | inr other ↦ rw other (ground arith)
          ])

  -- The count of the bucket and of what is admitted later stay within the limit together.
  window_invariant :
      (label : Text) (e last : ℕ) (p : PeerPolicy) (reqs : List (Text × ℕ))
      → p.rate_limit ≡ pos limit
      → length (bucket_of label p.rates) ≤ limit
      → last ≤ e
      → IsAscending last reqs
      → count (in_window e) (bucket_of label p.rates)
          + count (signed_in label e) (admissions p reqs)
        ≤ limit
  unfolding admissions
  window_invariant label e last p [] r b h a =
      omega (arith, count-le-length (in_window e) (bucket_of label p.rates))
  window_invariant label e last p (q ∷ rest) r b h (a, as') = elim (Bool-cases (leb q.1 e)) [
    | inl now ↦ ground (
      arith,
      count-check_rate p q.0 q.1 r label e (leb→le q.1 e now),
      window_invariant label e q.1 (check_rate p q.0 q.1).0 rest (rate_limit-check_rate p q.0 q.1 r)
          (length-bucket_of p q.0 q.1 r label b) (leb→le q.1 e now) as',
    )
    | inr before ↦ ground (
      arith,
      count-later label e q.1 (check_rate p q.0 q.1).0 rest (leb-false q.1 e before) as',
      count-le-length (in_window e) (bucket_of label p.rates),
    )
  ]

effective : ℕ → ℕ
effective limit = if leb limit rate_limit_ceiling then limit else rate_limit_ceiling

rate_limit-new_peer_policy :
    (enforce : Bool) (limit : ℕ) (extra : List CallerRule)
    → (new_peer_policy enforce (pos limit) extra).rate_limit ≡ pos (effective limit)
unfolding new_peer_policy effective
rate_limit-new_peer_policy enforce limit extra = ground arith

effective_bounds :
    (limit : ℕ)
    → 0 < limit
    → (0 < effective limit) × (effective limit ≤ limit) × (effective limit ≤ rate_limit_ceiling)
unfolding effective
effective_bounds limit h = ground arith

-- Whatever the labels and times of the requests, as long as the clock never runs backwards: where rate
-- limiting is on, `CheckRate` lets at most as many requests for one key pass in the minute that ends at
-- any moment as the configured limit, and at most the ceiling.
pub rate_window :
    (enforce : Bool) (limit : ℕ) (extra : List CallerRule) (reqs : List (Text × ℕ)) (label : Text)
    (e : ℕ)
    → 0 < limit
    → IsAscending 0 reqs
    → (count (signed_in label e) (admissions (new_peer_policy enforce (pos limit) extra) reqs)
        ≤ limit)
      × (count (signed_in label e) (admissions (new_peer_policy enforce (pos limit) extra) reqs)
          ≤ rate_limit_ceiling)
rate_window enforce limit extra reqs label e h a =
    let (positive, below, under) = effective_bounds limit h in
    let p : PeerPolicy = new_peer_policy enforce (pos limit) extra in
    let bound =
      window_invariant (effective limit) positive label e 0 p reqs
        (rate_limit-new_peer_policy enforce limit extra)
        (unfold new_peer_policy bucket_of in omega arith) (omega arith) a in
    (omega arith, omega arith)
