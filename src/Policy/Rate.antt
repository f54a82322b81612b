-- ===== src/Policy/Rate.antt =====
-- The rate limiter of policy.go: `rateBucket.allow` and `CheckRate`. Times are nanoseconds.
pub mod Window
use touchid_agent.Prelude.{
  ℕ, ◌+◌, ◌*◌, ◌^◌, ℤ, pos, pos_part, leb_ℤ, Bool, true, false, List, [], ◌∷◌, ◌++◌, Option, none,
  some, Result, ok, err, ltb, leb, length, keep, if◌then◌else◌,
}
use touchid_agent.Text.{Text, equal}
use touchid_agent.Policy.{PeerPolicy}

-- `time.Minute`
abbrev pub minute : ℕ
minute = 60 * 10 ^ 9

-- `t.After(now.Add(-time.Minute))`, written without the difference
abbrev pub is_recent : ℕ → ℕ → Bool
is_recent now t = ltb now (t + minute)

-- The bucket's times after the call, and whether the signature is allowed.
unfoldable pub allow : ℕ → ℕ → List ℕ → List ℕ × Bool
allow limit now times =
    let valid = keep (is_recent now) times in
    if leb limit (length valid) then (valid, false) else (valid ++ now ∷ [], true)

-- `LoadOrStore` of an empty bucket, and the update of the bucket that it returns
unfoldable pub bucket_of : Text → List (Text × List ℕ) → List ℕ
bucket_of label [] = []
bucket_of label ((l, b) ∷ rates) = if equal l label then b else bucket_of label rates

unfoldable pub store_bucket : Text → List ℕ → List (Text × List ℕ) → List (Text × List ℕ)
store_bucket label b [] = (label, b) ∷ []
store_bucket label b ((l, old) ∷ rates) =
    if equal l label then (l, b) ∷ rates else (l, old) ∷ store_bucket label b rates

pub data RateError : Type 0 where
  rate_limit_exceeded : ℤ → RateError

charge : PeerPolicy → Text → List ℕ × Bool → PeerPolicy × Result RateError (Unit {0})
charge p label (times, allowed) = (
  record p { rates = store_bucket label times p.rates },
  if allowed then ok tt else err (rate_limit_exceeded p.rate_limit),
)

-- `CheckRate` on a policy that is not nil, at time `now`
unfoldable pub check_rate : PeerPolicy → Text → ℕ → PeerPolicy × Result RateError (Unit {0})
unfolding charge
check_rate p label now =
    if leb_ℤ p.rate_limit (pos 0)
    then (p, ok tt)
    else charge p label (allow (pos_part p.rate_limit) now (bucket_of label p.rates))
