-- ===== src/Agent/Requests/Listing.antt =====
-- `List` and `Signers` of agent.go, and the requests of the protocol that the agent does not serve.
use touchid_agent.Prelude.{
  ℕ, Bool, true, false, List, [], ◌∷◌, ◌++◌, Option, none, some, Result, ok, err, ◌≡◌, ◌↔◌, inl,
  inr, refl, ap, arith, Bool-cases, Option-cases, any, if◌then◌else◌, ◌⊎◌,
}
use touchid_agent.Text.{Text, codes, equal, equal_iff}
use touchid_agent.Key.{Key, PublicKey}
use touchid_agent.Audit.Encoding.{Codec}
use touchid_agent.Agent.Requests.{
  Agent, World, Request, find_key, has_blob, matched, matched_in, sign_for, with_keys, with_match,
  SignError, no_matching_key, could_not_list,
}

-- `agent.Key`, as the SSH library's public key gives its type and encoding
pub record AgentKey : Type 0 where
  pub format : Text
  pub blob : List ℕ
  pub comment : Text

abbrev key_comment : Text → Text
key_comment label = codes "touchid-agent: " ++ label

module _ (key_type : PublicKey → Text) (w : World) where
  listed_before : Key → Option (List ℕ) → List AgentKey → List AgentKey
  listed_before k none rest = rest
  listed_before k (some b) rest =
      record { format = key_type k.public_key; blob = b; comment = key_comment k.label } ∷ rest

  -- A key that cannot be converted is skipped.
  pub agent_keys : List Key → List AgentKey
  unfolding listed_before
  agent_keys [] = []
  agent_keys (k ∷ ks) = listed_before k (w.blob k.public_key) (agent_keys ks)

  list_of : Result Text (List Key) → Result SignError (List AgentKey)
  list_of (err e) = err (could_not_list e)
  list_of (ok ks) = ok (agent_keys ks)

  unfoldable pub list : Result SignError (List AgentKey)
  unfolding list_of
  list = list_of w.keys

  signed_before : Key → Option Text → List Key → List Key
  signed_before k none rest = k ∷ rest
  signed_before k (some e) rest = rest

  -- The keys that the SSH library makes a signer for.
  pub signer_keys : List Key → List Key
  unfolding signed_before
  signer_keys [] = []
  signer_keys (k ∷ ks) = signed_before k (w.new_signer k) (signer_keys ks)

  signers_of : Result Text (List Key) → Result SignError (List Key)
  signers_of (err e) = err (could_not_list e)
  signers_of (ok ks) = ok (signer_keys ks)

  unfoldable pub signers : Result SignError (List Key)
  unfolding signers_of
  signers = signers_of w.keys

  pub shows : List ℕ → List AgentKey → Bool
  shows wanted ks = any (λ k. equal k.blob wanted) ks

-- `Extension`, `Add`, `Remove`, `RemoveAll`, `Lock` and `Unlock`
pub data OtherRequest : Type 0 where
  extension add remove remove_all lock unlock : OtherRequest

pub data OtherError : Type 0 where
  extension_unsupported operation_unsupported : OtherError

unfoldable pub other_request : OtherRequest → Agent → Result OtherError (Unit {0}) × Agent
other_request extension a = (err extension_unsupported, a)
other_request _ a = (err operation_unsupported, a)

module _ (key_type : PublicKey → Text) (w : World) (q : Request) where
  shows-has_blob :
      (k : Key) (b : Option (List ℕ)) (rest : List AgentKey)
      → shows key_type w q.key_blob (listed_before key_type w k b rest)
        ≡ (if has_blob b q.key_blob then true else shows key_type w q.key_blob rest)
  unfolding listed_before shows has_blob
  shows-has_blob k none rest = refl
  shows-has_blob k (some b) rest = ground arith

  found_shown :
      (ks : List Key)
      → (find_key w.blob q.key_blob ks ≡ none)
        ↔ (shows key_type w q.key_blob (agent_keys key_type w ks) ≡ false)
  unfolding find_key agent_keys
  found_shown [] = (λ h. unfold shows in refl, λ h. refl)
  found_shown (k ∷ ks) =
      rw (shows-has_blob k (w.blob k.public_key) (agent_keys key_type w ks))
        (ground (arith, found_shown ks))

  has_blob-some : (b : Option (List ℕ)) → has_blob b q.key_blob ≡ true → b ≡ some q.key_blob
  unfolding has_blob
  has_blob-some none h = absurd (ground arith)
  has_blob-some (some b) h = ap some ((equal_iff b q.key_blob).0 h)

  found_blob :
      (ks : List Key) (k : Key)
      → find_key w.blob q.key_blob ks ≡ some k
      → w.blob k.public_key ≡ some q.key_blob
  unfolding find_key
  found_blob [] k h = absurd (ground arith)
  found_blob (l ∷ ks) k h = elim (Bool-cases (has_blob (w.blob l.public_key) q.key_blob)) [
    | inl this ↦
        let same : l ≡ k = ground arith in rw (← same) (has_blob-some (w.blob l.public_key) this)
    | inr other ↦ found_blob ks k (rw other at h)
  ]

  -- With the keys that the store has, a request for an encoding that `List` does not show is refused at
  -- once: nothing is changed and nothing else happens. One for an encoding that it shows is about a key
  -- of the store with that encoding.
  pub listed_or_refused :
      (codec : Codec) (a : Agent) (ks : List Key)
      → w.keys ≡ ok ks
      → let shown = shows key_type w q.key_blob (agent_keys key_type w ks) in
        (list key_type w ≡ ok (agent_keys key_type w ks))
        × (((shown ≡ false) × (sign_for codec w q a ≡ (err no_matching_key, a, [])))
            ⊎ ((shown ≡ true)
                × (k : Key) × (matched w q ≡ some k)
                × (w.blob k.public_key ≡ some q.key_blob)))
  unfolding list list_of sign_for with_keys with_match matched matched_in
  listed_or_refused codec a ks h =
      let shown = found_shown ks in
      (
        rw h refl,
        elim (Bool-cases (shows key_type w q.key_blob (agent_keys key_type w ks))) [
          | inr e ↦ inl (e, rw (h, shown.1 e) refl)
          | inl e ↦ elim (Option-cases (find_key w.blob q.key_blob ks)) [
            | inl f ↦ absurd (ground (arith, shown.0 f))
            | inr (k, f) ↦ inr (e, k, rw h f, found_blob ks k f)
          ]
        ],
      )
