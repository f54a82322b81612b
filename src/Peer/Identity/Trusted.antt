-- ===== src/Peer/Identity/Trusted.antt =====
-- What is behind the identity of a peer, `peerCreds` of peer_darwin.go, in the answers of the Security
-- framework.
use touchid_agent.Prelude.{
  Bool, true, false, Option, none, some, ◌≡◌, ◌⊎◌, ◌∙◌, sym, inl, inr, Option-cases, Bool-cases,
  refl, arith, ◌==◌, ap, if◌then◌else◌,
}
use touchid_agent.Peer.{
  CallerIdentity, Answers, peer_creds, with_identity, with_uid, with_pid, with_pid_path,
}
use touchid_agent.Peer.Identity.{
  Lookup, SecCode, SigningInfo, Buffers, flag, peer_code_identity, resolve_caller_identity,
  identity_of, of_code, with_info,
}

-- The code object that the connection's audit token has led to, where every call before it went well.
unfoldable pub code_of : Lookup → Option SecCode
code_of l =
    if l.token
    then (if l.token_data then (if l.attributes then l.code else none) else none)
    else none

-- What a peer and an identity say of the signature.
abbrev Shows : (a : Answers) (id : CallerIdentity) → Type 0
Shows a id =
    ((peer_creds a).signed ≡ id.signed)
    × ((peer_creds a).apple_platform ≡ id.apple_platform)
    × ((peer_creds a).apple_anchored ≡ id.apple_anchored)

peer-Shows :
    (a : Answers)
    → ((id : CallerIdentity) × (a.identity ≡ some id) × Shows a id)
      ⊎ (((peer_creds a).signed ≡ false)
          × ((peer_creds a).apple_platform ≡ false)
          × ((peer_creds a).apple_anchored ≡ false))
unfolding peer_creds with_identity with_uid with_pid with_pid_path
peer-Shows a = elim (Option-cases a.identity) [
  | inl e ↦ inr (ground arith)
  | inr (id, e) ↦ elim (Bool-cases a.connection) [
    | inl c ↦ inl (id, e, ground arith)
    | inr c ↦ inr (ground arith)
  ]
]

flag_set : (b : Bool) → (flag b == 1) ≡ b
flag_set true = ground arith
flag_set false = ground arith

-- The flags of an identity are the framework's findings on the code object.
abbrev Findings : Option SecCode → CallerIdentity → Type 0
Findings found id =
    (c : SecCode) × (found ≡ some c)
    × (id.signed ≡ c.is_valid)
    × (id.apple_platform ≡ c.anchor_apple)
    × (id.apple_anchored ≡ c.anchor_apple_generic)

same_identity : {x y : CallerIdentity} → some x ≡ some y → y ≡ x
same_identity e = cc

of_info :
    (info : Option SigningInfo) (b : Buffers) (id : CallerIdentity)
    → identity_of (0, with_info info b) ≡ some id
    → (id.signed ≡ (b.valid == 1))
      × (id.apple_platform ≡ (b.apple_platform == 1))
      × (id.apple_anchored ≡ (b.apple_anchored == 1))
unfolding identity_of with_info
of_info none b id h =
    let e = same_identity h in
    (
      ap (λ (x : CallerIdentity). x.signed) e,
      ap (λ (x : CallerIdentity). x.apple_platform) e,
      ap (λ (x : CallerIdentity). x.apple_anchored) e,
    )
of_info (some i) b id h =
    let e = same_identity h in
    (
      ap (λ (x : CallerIdentity). x.signed) e,
      ap (λ (x : CallerIdentity). x.apple_platform) e,
      ap (λ (x : CallerIdentity). x.apple_anchored) e,
    )

of_code-Findings :
    (found : Option SecCode) (id : CallerIdentity)
    → identity_of (of_code found) ≡ some id
    → Findings found id
unfolding of_code
of_code-Findings none id h = absurd (unfold identity_of in cc)
of_code-Findings (some c) id h =
    let (s, p, g) = of_info c.info _ id h in
    (
      c,
      refl,
      s ∙ flag_set c.is_valid,
      p ∙ flag_set c.anchor_apple,
      g ∙ flag_set c.anchor_apple_generic,
    )

resolve-Findings :
    (l : Lookup) (id : CallerIdentity)
    → resolve_caller_identity l ≡ some id
    → Findings (code_of l) id
unfolding resolve_caller_identity peer_code_identity code_of
resolve-Findings l id h = elim (Bool-cases l.token) [
  | inr t ↦ absurd (unfold identity_of in ground arith)
  | inl t ↦ elim (Bool-cases l.token_data) [
    | inr d ↦ absurd (unfold identity_of in ground arith)
    | inl d ↦ elim (Bool-cases l.attributes) [
      | inr a ↦ absurd (unfold identity_of in ground arith)
      | inl a ↦ rw (t, d, a) (of_code-Findings l.code id (rw (t, d, a) at h))
    ]
  ]
]

-- The code object was found, and has this mark.
abbrev pub Found : Lookup → (SecCode → Bool) → Type 0
Found l mark = (c : SecCode) × (code_of l ≡ some c) × (mark c ≡ true)

either :
    (l : Lookup) (mark : SecCode → Bool) {claim : Bool} (c : SecCode)
    → code_of l ≡ some c
    → claim ≡ mark c
    → (claim ≡ false) ⊎ Found l mark
either l mark c found same = elim (Bool-cases (mark c)) [
  | inl on ↦ inr (c, found, on)
  | inr off ↦ inl (same ∙ off)
]

-- Where the identity of a connection is what `resolveCallerIdentity` gives, its peer counts as signed, as
-- Apple's platform or as anchored at Apple only if the audit token of the connection led to a code object,
-- and the Security framework found that object valid, alone or against the requirement.
pub identity_vouched :
    (a : Answers) (l : Lookup)
    → a.identity ≡ resolve_caller_identity l
    → (((peer_creds a).signed ≡ false) ⊎ Found l (λ c. c.is_valid))
      × (((peer_creds a).apple_platform ≡ false) ⊎ Found l (λ c. c.anchor_apple))
      × (((peer_creds a).apple_anchored ≡ false) ⊎ Found l (λ c. c.anchor_apple_generic))
identity_vouched a l h = elim (peer-Shows a) [
  | inr (s, p, g) ↦ (inl s, inl p, inl g)
  | inl (id, e, (s, p, g)) ↦
      let (c, found, v, x, y) = resolve-Findings l id (sym h ∙ e) in
      (
        either l (λ d. d.is_valid) c found (s ∙ v),
        either l (λ d. d.anchor_apple) c found (p ∙ x),
        either l (λ d. d.anchor_apple_generic) c found (g ∙ y),
      )
]
