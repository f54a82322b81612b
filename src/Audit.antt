-- ===== src/Audit.antt =====
-- audit.go: the hash-chained log of signing events, the seeding of a chain from an existing file, and
-- the verification of a file. JSON and SHA-256 are the interface `Codec`.
pub mod Encoding
pub mod Scan
pub mod Chain
pub mod Restart
pub mod Tamper
pub mod Blind
use touchid_agent.Prelude.{
  ℕ, suc, ◌+◌, ◌-◌, ◌^◌, ◌%◌, ℤ, Bool, true, false, not, ◌&&◌, List, [], ◌∷◌, ◌++◌, Option, none,
  some, Result, ok, err, ltb, leb, ◌==◌, length, take, drop, if◌then◌else◌,
}
use touchid_agent.Text.{Text, codes, equal, is_empty}
use touchid_agent.Peer.{Peer}
use touchid_agent.Audit.Encoding.{SignEvent, Codec}
use touchid_agent.Audit.Scan.{Bytes, newline, raw_lines, drop_cr}

-- sixty-four zeros
abbrev pub genesis_prev : Text
genesis_prev = codes "0000000000000000000000000000000000000000000000000000000000000000"

-- the range of `uint64`
abbrev pub u64 : ℕ
u64 = 2 ^ 64

-- `file` is what the writer has taken: the content of the log file, or of the standard error.
pub record AuditLogger : Type 0 where
  pub file : Bytes
  pub seq : ℕ
  pub prev_hash : Text

-- The arguments of a call of `Sign`, with the time of the call as it is formatted.
pub record Call : Type 0 where
  pub timestamp : Text
  pub label : Text
  pub success : Bool
  pub error : Option Text
  pub peer : Peer

-- How `Write` ends: all bytes taken, or an error behind the first `n` bytes.
pub data Written : Type 0 where
  all : Written
  short : ℕ → Written

abbrev error_text : Option Text → Text
error_text none = []
error_text (some e) = e

unfoldable pub event : Call → ℕ → Text → SignEvent
event c seq prev = record {
  timestamp = c.timestamp;
  event = codes "sign";
  seq = (seq + 1) % u64;
  prev = prev;
  label = c.label;
  success = c.success;
  error = error_text c.error;
  peer_pid = c.peer.pid;
  peer_uid = c.peer.uid;
  peer_path = c.peer.path;
  peer_team_id = c.peer.team_id;
  peer_signing_id = c.peer.signing_id;
  peer_cd_hash = c.peer.cd_hash;
  peer_signed = c.peer.signed;
}

abbrev pub max_token : ℕ
max_token = 2 ^ 20

abbrev pub tail_size : ℕ
tail_size = 2 ^ 16

pub data Reason : Type 0 where
  intact invalid_json prev_mismatch : Reason
  seq_gap : ℕ → ℕ → Reason

pub record VerifyResult : Type 0 where
  pub records : ℕ
  pub chained : ℕ
  pub is_ok : Bool
  pub broken_line : ℕ
  pub reason : Reason

pub data VerifyError : Type 0 where
  cannot_open : Text → VerifyError
  token_too_long : VerifyError

abbrev pub Verdict : Type 0
Verdict = Result VerifyError VerifyResult

abbrev pub chain_intact : ℕ → ℕ → VerifyResult
chain_intact records chained = record {
  records = records;
  chained = chained;
  is_ok = true;
  broken_line = 0;
  reason = intact;
}

abbrev pub chain_broken : ℕ → ℕ → Reason → VerifyResult
chain_broken line chained why = record {
  records = line;
  chained = chained;
  is_ok = false;
  broken_line = line;
  reason = why;
}

-- `for len(buf) > 0 && buf[len(buf)-1] == '\n'`
cons_stripped : ℕ → Bytes → Bytes
cons_stripped c [] = if c == newline then [] else c ∷ []
cons_stripped c (d ∷ s) = c ∷ d ∷ s

pub strip_newlines : Bytes → Bytes
unfolding cons_stripped
strip_newlines [] = []
strip_newlines (c ∷ s) = cons_stripped c (strip_newlines s)

-- What stands behind the last newline, if there is one.
pub after_last_newline : Bytes → Option Bytes
after_last_newline [] = none
after_last_newline (c ∷ s) = elim (after_last_newline s) [
  | some l ↦ some l
  | none ↦ if c == newline then some s else none
]

abbrev or_all : Option Bytes → Bytes → Bytes
or_all none buf = buf
or_all (some l) buf = l

last_line : Bytes → Bytes
last_line buf = or_all (after_last_newline buf) buf

-- `none` is a file that cannot be opened, measured or read.
unfoldable pub read_last_line : Option Bytes → Bytes
unfolding strip_newlines last_line
read_last_line none = []
read_last_line (some content) =
    last_line (strip_newlines (drop (length content - tail_size) content))

abbrev pub content_of : Option Bytes → Bytes
content_of none = []
content_of (some b) = b

abbrev pub new_stderr_audit_logger : AuditLogger
new_stderr_audit_logger = record { file = []; seq = 0; prev_hash = genesis_prev }

module _ (codec : Codec) where
  open codec use {encode, decode, decode_seq, hash_line}

  write_line : Call → Written → AuditLogger → Option Bytes → AuditLogger
  write_line c w a none = a
  write_line c (short n) a (some line) = record a { file = a.file ++ take n (line ++ newline ∷ []) }
  write_line c all a (some line) = record {
    file = a.file ++ (line ++ newline ∷ []);
    seq = (a.seq + 1) % u64;
    prev_hash = hash_line line;
  }

  -- `Sign` on a logger that is not nil
  unfoldable pub sign : Call → Written → AuditLogger → AuditLogger
  unfolding write_line
  sign c w a = write_line c w a (encode (event c a.seq a.prev_hash))

  seed_line : Bytes → ℕ × Text
  seed_line [] = (0, genesis_prev)
  seed_line (c ∷ s) = (decode_seq (c ∷ s), hash_line (c ∷ s))

  unfoldable pub seed_chain : Option Bytes → ℕ × Text
  unfolding seed_line
  seed_chain path = seed_line (read_last_line path)

  seeded : Option Bytes → ℕ × Text → AuditLogger
  seeded path (seq, prev) = record { file = content_of path; seq = seq; prev_hash = prev }

  -- The directory's creation and the opening for append may fail; `path` is the file as it is.
  unfoldable pub new_audit_logger :
      Option Text → Option Bytes → Option Text → Result Text AuditLogger
  unfolding seeded
  new_audit_logger (some mkdir_error) path open_error = err mkdir_error
  new_audit_logger none path (some open_error) = err open_error
  new_audit_logger none path none = ok (seeded path (seed_chain path))

  -- One record: `next` goes on with the lines read, the records chained, and what is expected next.
  check_record :
      Bytes → ℕ → ℕ → ℕ → Text → (ℕ → ℕ → ℕ → Text → Verdict) → Option (ℕ × Text) → Verdict
  check_record raw line chained expected_seq expected_prev next none =
      ok (chain_broken (line + 1) 0 invalid_json)
  check_record raw line chained expected_seq expected_prev next (some (seq, prev)) =
      if is_empty prev
      then next (line + 1) chained expected_seq (hash_line raw)
      else if not (equal prev expected_prev)
      then ok (chain_broken (line + 1) chained prev_mismatch)
      else if not (expected_seq == 0) && not (seq == (expected_seq + 1) % u64)
      then ok (chain_broken (line + 1) chained (seq_gap ((expected_seq + 1) % u64) seq))
      else next (line + 1) (chained + 1) seq (hash_line raw)

  check_line : Bytes → ℕ → ℕ → ℕ → Text → (ℕ → ℕ → ℕ → Text → Verdict) → Verdict
  unfolding check_record
  check_line raw line chained expected_seq expected_prev next =
      if is_empty raw
      then next line chained expected_seq expected_prev
      else check_record raw line chained expected_seq expected_prev next (decode raw)

  -- The scanner gives up at a line that does not fit in its buffer with the newline.
  pub verify_lines : List Bytes → ℕ → ℕ → ℕ → Text → Verdict
  unfolding check_line
  verify_lines [] line chained expected_seq expected_prev = ok (chain_intact line chained)
  verify_lines (raw ∷ rest) line chained expected_seq expected_prev =
      let checked =
        check_line (drop_cr raw) line chained expected_seq expected_prev (verify_lines rest) in
      if leb max_token (length raw) then err token_too_long else checked

  unfoldable pub verify_audit_chain : Result Text Bytes → Verdict
  unfolding verify_lines
  verify_audit_chain (err e) = err (cannot_open e)
  verify_audit_chain (ok content) = verify_lines (raw_lines content) 0 0 0 genesis_prev
