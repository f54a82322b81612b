-- ===== src/Policy/Authorize.antt =====
-- `CheckCaller` of policy.go: what a caller has to show about itself.
use mathlib.Core.Bool.{false≢true}
use touchid_agent.Prelude.{
  true, false, List, [], ◌∷◌, some, ok, ℤ, any, sym, ◌≡◌, ◌⊎◌, ◌↔◌, inl, inr, refl, arith,
  Bool-cases,
}
use touchid_agent.Text.{Text, codes, equal_iff, is_empty}
use touchid_agent.Peer.{Peer}
use touchid_agent.Policy.{
  Symlinks, RuleKind, CallerRule, rule_path, PeerPolicy, matches, rule_matches, path_matches,
  new_peer_policy, default_caller_rules, is_allowed_caller, check_caller,
}

-- Some rule of the list lets the peer in.
abbrev pub SomeMatch : Symlinks → List CallerRule → Peer → Type 0
SomeMatch links [] peer = ⊥
SomeMatch links (r ∷ rs) peer = (matches links r peer ≡ true) ⊎ SomeMatch links rs peer

pub any→SomeMatch :
    (links : Symlinks) (rs : List CallerRule) (peer : Peer)
    → any (λ r. matches links r peer) rs ≡ true
    → SomeMatch links rs peer
any→SomeMatch links [] peer h = false≢true h
any→SomeMatch links (r ∷ rs) peer h = elim (Bool-cases (matches links r peer)) [
  | inl e ↦ inl e
  | inr e ↦ inr (any→SomeMatch links rs peer (rw e at h))
]

pub SomeMatch→any :
    (links : Symlinks) (rs : List CallerRule) (peer : Peer)
    → SomeMatch links rs peer
    → any (λ r. matches links r peer) rs ≡ true
SomeMatch→any links [] peer h = absurd h
SomeMatch→any links (r ∷ rs) peer (inl e) = rw e
SomeMatch→any links (r ∷ rs) peer (inr h) = ground (arith, SomeMatch→any links rs peer h)

check_caller-eq-ok :
    (links : Symlinks) (p : PeerPolicy) (peer : Peer)
    → (check_caller links (some p) peer ≡ ok tt) ↔ (
        (p.enforce ≡ false)
        ⊎ ((any (λ r. matches links r peer) p.rules ≡ true)
            × ((p.require_hardened ≡ false) ⊎ (peer.hardened ≡ true))))
unfolding check_caller is_allowed_caller
check_caller-eq-ok links p peer = ground arith

-- A peer passes `CheckCaller` of a policy exactly when enforcement is off, or some rule of the policy
-- matches it and, where the policy requires the hardened runtime, the peer runs with it.
pub check_caller_iff :
    (links : Symlinks) (p : PeerPolicy) (peer : Peer)
    → (check_caller links (some p) peer ≡ ok tt) ↔ (
        (p.enforce ≡ false)
        ⊎ (SomeMatch links p.rules peer × ((p.require_hardened ≡ false) ⊎ (peer.hardened ≡ true))))
check_caller_iff links p peer = (
  λ h. elim ((check_caller-eq-ok links p peer).0 h) [
    | inl off ↦ inl off
    | inr (hit, hard) ↦ inr (any→SomeMatch links p.rules peer hit, hard)
  ],
  λ h. (check_caller-eq-ok links p peer).1 (elim h [
    | inl off ↦ inl off
    | inr (hit, hard) ↦ inr (SomeMatch→any links p.rules peer hit, hard)
  ]),
)

-- A peer without any code signature: neither anchor validates, and it has no code directory hash.
pub record IsUnsigned (peer : Peer) : Type 0 where
  pub no_platform : peer.apple_platform ≡ false
  pub no_anchor : peer.apple_anchored ≡ false
  pub no_hash : peer.cd_hash ≡ []

-- A path rule of the list names the peer's path, or a link to it.
abbrev pub SomePath : Symlinks → List CallerRule → Peer → Type 0
SomePath links [] peer = ⊥
SomePath links (r ∷ rs) peer =
    ((r.kind ≡ rule_path) × (path_matches links peer.path r.value ≡ true)) ⊎ SomePath links rs peer

unsigned_match :
    (links : Symlinks) (k : RuleKind) (v : Text) (peer : Peer)
    → IsUnsigned peer
    → rule_matches links k v peer ≡ true
    → (k ≡ rule_path) × (path_matches links peer.path v ≡ true)
unfolding rule_matches is_empty
unsigned_match links rule_path v peer u h = (refl, h)
unsigned_match links _ v peer u h = ground arith

unsigned-SomeMatch :
    (links : Symlinks) (rs : List CallerRule) (peer : Peer)
    → IsUnsigned peer
    → SomeMatch links rs peer
    → SomePath links rs peer
unsigned-SomeMatch links [] peer u m = m
unsigned-SomeMatch links (r ∷ rs) peer u (inl m) =
    inl (unsigned_match links r.kind r.value peer u (unfold matches in m))
unsigned-SomeMatch links (r ∷ rs) peer u (inr m) = inr (unsigned-SomeMatch links rs peer u m)

-- Under an enforcing policy an unsigned peer passes only by a path rule that names its path.
pub unsigned_needs_path :
    (links : Symlinks) (p : PeerPolicy) (peer : Peer)
    → p.enforce ≡ true
    → IsUnsigned peer
    → check_caller links (some p) peer ≡ ok tt
    → SomePath links p.rules peer
unsigned_needs_path links p peer on u h = elim ((check_caller_iff links p peer).0 h) [
  | inl off ↦ cc
  | inr (m, _) ↦ unsigned-SomeMatch links p.rules peer u m
]

-- The signing identifier of one of Apple's four SSH tools.
abbrev pub IsSshTool : Text → Type 0
IsSshTool id =
    (id ≡ codes "com.apple.ssh")
    ⊎ (id ≡ codes "com.apple.scp")
    ⊎ (id ≡ codes "com.apple.sftp")
    ⊎ (id ≡ codes "com.apple.ssh-keygen")

default_match :
    (links : Symlinks) (peer : Peer)
    → SomeMatch links default_caller_rules peer
      ↔ ((peer.apple_platform ≡ true) × IsSshTool peer.signing_id)
unfolding matches
default_match links peer = ground (
  arith,
  equal_iff peer.signing_id (codes "com.apple.ssh"),
  equal_iff peer.signing_id (codes "com.apple.scp"),
  equal_iff peer.signing_id (codes "com.apple.sftp"),
  equal_iff peer.signing_id (codes "com.apple.ssh-keygen"),
)

-- With enforcement on and no extra rules the peers that pass are exactly Apple's own `ssh`, `scp`,
-- `sftp` and `ssh-keygen`, told by a validated platform signature.
pub default_policy_iff :
    (links : Symlinks) (limit : ℤ) (peer : Peer)
    → (check_caller links (some (new_peer_policy true limit [])) peer ≡ ok tt)
      ↔ ((peer.apple_platform ≡ true) × IsSshTool peer.signing_id)
unfolding new_peer_policy
default_policy_iff links limit peer = (
  λ h. elim ((check_caller_iff links (new_peer_policy true limit []) peer).0 h) [
    | inl off ↦ absurd (false≢true (sym off))
    | inr (m, _) ↦ (default_match links peer).0 m
  ],
  λ h.
      (check_caller_iff links (new_peer_policy true limit []) peer).1
        (inr ((default_match links peer).1 h, inl refl)),
)
