-- ===== src/Peer/Identity.antt =====
-- codesign_darwin.go: `peerCodeIdentity`, its C helper, and `resolveCallerIdentity`; `procPidPath` of
-- peer_darwin.go. What the kernel and the Security framework answer are arguments. A buffer holds the
-- bytes up to the NUL that ends it.
pub mod Trusted
use touchid_agent.Prelude.{
  ℕ, ◌+◌, ◌*◌, ◌-◌, ◌/◌, ◌%◌, ℤ, pos, leb_ℤ, Bool, true, false, List, [], ◌∷◌, Option, none, some,
  Result, ltb, leb, ◌==◌, length, take, if◌then◌else◌,
}
use touchid_agent.Text.{Text}
use touchid_agent.Peer.{CallerIdentity}

-- What `SecCodeCopySigningInformation` has for a code: `none` where the dictionary lacks a value, or its
-- text does not fit into the buffer or is no text.
pub record SigningInfo : Type 0 where
  pub team_identifier : Option Text
  pub identifier : Option Text
  pub main_executable : Option Text
  pub flags : Option ℕ
  pub unique : Option (List ℕ)

-- A code object of the Security framework: whether its signature is valid, alone and against a
-- requirement, and its signing information.
pub record SecCode : Type 0 where
  pub is_valid : Bool
  pub anchor_apple : Bool
  pub anchor_apple_generic : Bool
  pub info : Option SigningInfo

-- The calls before there is a code object, in their order.
pub record Lookup : Type 0 where
  pub token : Bool
  pub token_data : Bool
  pub attributes : Bool
  pub code : Option SecCode

-- The variables that `peerCodeIdentity` fills; its flags are 0 or 1.
pub record Buffers : Type 0 where
  pub path_buf : Text
  pub team_buf : Text
  pub signing_buf : Text
  pub cdhash_buf : Text
  pub valid : ℕ
  pub apple_platform : ℕ
  pub apple_anchored : ℕ
  pub hardened : ℕ

abbrev pub blank : Buffers
blank = record {
  path_buf = [];
  team_buf = [];
  signing_buf = [];
  cdhash_buf = [];
  valid = 0;
  apple_platform = 0;
  apple_anchored = 0;
  hardened = 0;
}

abbrev pub flag : Bool → ℕ
flag true = 1
flag false = 0

-- A buffer that nothing was copied into is empty.
abbrev copied : Option Text → Text
copied none = []
copied (some s) = s

-- CS_RUNTIME, the bit 0x10000
runtime_flag : Option ℕ → ℕ
runtime_flag none = 0
runtime_flag (some f) = if (f / 0x10000) % 2 == 1 then 1 else 0

-- A digit of "0123456789abcdef"
hex_digit : ℕ → ℕ
hex_digit d = if ltb d 10 then b'0' + d else b'a' + (d - 10)

unfoldable pub hex : List ℕ → Text
unfolding hex_digit
hex [] = []
hex (b ∷ bs) = hex_digit ((b / 16) % 16) ∷ hex_digit (b % 16) ∷ hex bs

abbrev pub cdhash_size : ℕ
cdhash_size = 128

-- The hash is written where twice its length and the NUL fit into the buffer.
hash_text : Option (List ℕ) → Text
hash_text none = []
hash_text (some bytes) = if leb (length bytes * 2 + 1) cdhash_size then hex bytes else []

with_info : Option SigningInfo → Buffers → Buffers
unfolding runtime_flag hash_text
with_info none b = b
with_info (some i) b = record b {
  path_buf = copied i.main_executable;
  team_buf = copied i.team_identifier;
  signing_buf = copied i.identifier;
  cdhash_buf = hash_text i.unique;
  hardened = runtime_flag i.flags;
}

of_code : Option SecCode → ℕ × Buffers
unfolding with_info
of_code none = (3, blank)
of_code (some c) = (
  0,
  with_info c.info (record blank {
    valid = flag c.is_valid;
    apple_platform = flag c.anchor_apple;
    apple_anchored = flag c.anchor_apple_generic;
  }),
)

unfoldable pub peer_code_identity : Lookup → ℕ × Buffers
unfolding of_code
peer_code_identity l =
    if l.token
    then (if l.token_data
        then (if l.attributes then of_code l.code else (2, blank))
        else (2, blank))
    else (1, blank)

identity_of : ℕ × Buffers → Option CallerIdentity
identity_of (rc, b) =
    if rc == 0
    then some (record {
      path = b.path_buf;
      team_id = b.team_buf;
      signing_id = b.signing_buf;
      cd_hash = b.cdhash_buf;
      signed = b.valid == 1;
      apple_platform = b.apple_platform == 1;
      apple_anchored = b.apple_anchored == 1;
      hardened = b.hardened == 1;
    })
    else none

unfoldable pub resolve_caller_identity : Lookup → Option CallerIdentity
unfolding identity_of
resolve_caller_identity l = identity_of (peer_code_identity l)

-- `proc_pidpath` gives the length of the path, or no positive number where it fails.
unfoldable pub proc_pid_path : ℤ → List ℕ → Text
proc_pid_path (pos n) buffer = take n buffer
proc_pid_path ret buffer = []
