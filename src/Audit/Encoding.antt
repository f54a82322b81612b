-- ===== src/Audit/Encoding.antt =====
-- The records of the audit log, and what audit.go uses of `encoding/json` and `crypto/sha256`.
use touchid_agent.Prelude.{ℕ, ℤ, Bool, ◌++◌, ◌∷◌, [], Option, some, ◌≡◌, ◌≢◌, All, length}
use touchid_agent.Text.{Text}
use touchid_agent.Audit.Scan.{Bytes, newline}

pub record SignEvent : Type 0 where
  pub timestamp : Text
  pub event : Text
  pub seq : ℕ
  pub prev : Text
  pub label : Text
  pub success : Bool
  pub error : Text
  pub peer_pid : ℤ
  pub peer_uid : ℕ
  pub peer_path : Text
  pub peer_team_id : Text
  pub peer_signing_id : Text
  pub peer_cd_hash : Text
  pub peer_signed : Bool

-- `json.Marshal` of an event; `json.Unmarshal` of a line into `seq` and `prev`, and into `seq` alone, which
-- is 0 where it is not read; and `hashLine`.
pub record Codec : Type 0 where
  pub encode : SignEvent → Option Bytes
  pub decode : Bytes → Option (ℕ × Text)
  pub decode_seq : Bytes → ℕ
  pub hash_line : Bytes → Text

-- What is documented of them: an event of texts, numbers and truth values has an encoding, an object
-- on one line, from which the fields are read back; `seq` is read alike with `prev` and alone; a hash is
-- 64 hexadecimal digits.
pub record IsFaithful (c : Codec) : Type 0 where
  pub encoding : SignEvent → Bytes
  pub encodes : (e : SignEvent) → c.encode e ≡ some (encoding e)
  pub decodes : (e : SignEvent) → c.decode (encoding e) ≡ some (e.seq, e.prev)
  pub agrees :
      (line : Bytes) (seq : ℕ) (prev : Text)
      → c.decode line ≡ some (seq, prev)
      → c.decode_seq line ≡ seq
  pub one_line : (e : SignEvent) → All (λ b. b ≢ newline) (encoding e)
  pub closed : (e : SignEvent) → (body : Bytes) × (encoding e ≡ body ++ b'}' ∷ [])
  pub hash_length : (line : Bytes) → length (c.hash_line line) ≡ 64
