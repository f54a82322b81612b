-- ===== src/Peer.antt =====
-- peer_darwin.go and the result of codesign_darwin.go: who is on the other end of a connection.
-- The kernel and the Security framework answer the queries; here their answers are arguments.
pub mod Identity
use touchid_agent.Prelude.{
  ℕ, ℤ, pos, leb_ℤ, Bool, false, not, ◌&&◌, [], Option, none, some, ◌≡◌, arith, if◌then◌else◌,
}
use touchid_agent.Text.{Text, is_empty}

pub record Peer : Type 0 where
  pub pid : ℤ
  pub uid : ℕ
  pub path : Text
  pub team_id : Text
  pub signing_id : Text
  pub cd_hash : Text
  pub signed : Bool
  pub apple_platform : Bool
  pub apple_anchored : Bool
  pub hardened : Bool

pub record CallerIdentity : Type 0 where
  pub path : Text
  pub team_id : Text
  pub signing_id : Text
  pub cd_hash : Text
  pub signed : Bool
  pub apple_platform : Bool
  pub apple_anchored : Bool
  pub hardened : Bool

-- `Peer{}`
abbrev pub nobody : Peer
nobody = record {
  pid = pos 0;
  uid = 0;
  path = [];
  team_id = [];
  signing_id = [];
  cd_hash = [];
  signed = false;
  apple_platform = false;
  apple_anchored = false;
  hardened = false;
}

-- What the system answers about one connection: `none` where a call fails. `connection` tells whether
-- it is a Unix socket whose descriptor can be had.
pub record Answers : Type 0 where
  pub connection : Bool
  pub peer_pid : Option ℤ
  pub peer_cred : Option ℕ
  pub identity : Option CallerIdentity
  pub pid_path : ℤ → Text

with_pid : Option ℤ → Peer → Peer
with_pid none p = p
with_pid (some pid) p = record p { pid = pid }

with_uid : Option ℕ → Peer → Peer
with_uid none p = p
with_uid (some uid) p = record p { uid = uid }

with_identity : Option CallerIdentity → Peer → Peer
with_identity none p = p
with_identity (some id) p = record p {
  team_id = id.team_id;
  signing_id = id.signing_id;
  cd_hash = id.cd_hash;
  signed = id.signed;
  apple_platform = id.apple_platform;
  apple_anchored = id.apple_anchored;
  hardened = id.hardened;
  path = id.path;
}

-- The path by process number, only where the audit token gave none.
with_pid_path : (ℤ → Text) → Peer → Peer
with_pid_path pid_path p =
    if is_empty p.path && not (leb_ℤ p.pid (pos 0)) then record p { path = pid_path p.pid } else p

unfoldable pub peer_creds : Answers → Peer
unfolding with_pid with_uid with_identity with_pid_path is_empty
peer_creds a =
    if a.connection
    then with_pid_path a.pid_path
        (with_identity a.identity (with_uid a.peer_cred (with_pid a.peer_pid nobody)))
    else nobody

-- Without the audit token's identity a peer counts as unsigned: it has no Team ID, Signing ID or hash,
-- no anchor and no hardened runtime, whatever path the process number gives it.
pub peer_creds_unidentified :
    (a : Answers)
    → a.identity ≡ none
    → ((peer_creds a).apple_platform ≡ false)
      × ((peer_creds a).apple_anchored ≡ false)
      × ((peer_creds a).signed ≡ false)
      × ((peer_creds a).team_id ≡ [])
      × ((peer_creds a).signing_id ≡ [])
      × ((peer_creds a).cd_hash ≡ [])
      × ((peer_creds a).hardened ≡ false)
unfolding peer_creds
peer_creds_unidentified a h = ground arith
