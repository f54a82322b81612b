-- ===== src/Tests/Samples.antt =====
-- The values that the tests run on: callers, a point, an enclave and a log format.
use touchid_agent.Prelude.{
  ℕ, ◌+◌, ◌-◌, ◌%◌, pos, true, [], ◌∷◌, ◌++◌, Option, none, some, ok, length, take, All, ◌≡◌, ◌≢◌,
  refl, ap, ◌∙◌, arith,
}
use touchid_agent.Text.{Text, codes}
use touchid_agent.Peer.{Peer, nobody}
use touchid_agent.Policy.{Symlinks}
use touchid_agent.Audit.Encoding.{SignEvent, Codec}
use touchid_agent.Audit.Encoding
use touchid_agent.Audit.Scan.{Bytes, newline}
use touchid_agent.Key.{PublicKey, Enclave, marshal_ec_public_key}

abbrev pub no_links : Symlinks
no_links path = none

abbrev pub ssh_peer : Peer
ssh_peer = record nobody {
  pid = pos 71;
  uid = 501;
  path = codes "/usr/bin/ssh";
  signing_id = codes "com.apple.ssh";
  signed = true;
  apple_platform = true;
  hardened = true;
}

abbrev pub tool_peer : Peer
tool_peer = record nobody { pid = pos 72; path = codes "/opt/tool" }

-- A record of the log: its number and the hash before it, each code moved past the newline.
abbrev shifted : Text → Bytes
shifted [] = b'}' ∷ []
shifted (c ∷ s) = (c + 100) ∷ shifted s

abbrev back : Bytes → Text
back [] = []
back (c ∷ []) = []
back (c ∷ d ∷ s) = (c - 100) ∷ back (d ∷ s)

abbrev decoded : Bytes → Option (ℕ × Text)
decoded [] = none
decoded (c ∷ s) = some (c - 100, back s)

abbrev decoded_seq : Bytes → ℕ
decoded_seq [] = 0
decoded_seq (c ∷ s) = c - 100

decoded-agrees :
    (line : Bytes) (seq : ℕ) (prev : Text)
    → decoded line ≡ some (seq, prev)
    → decoded_seq line ≡ seq
decoded-agrees [] seq prev h = absurd (cc)
decoded-agrees (c ∷ s) seq prev h = cc

abbrev zeros : ℕ → Text
zeros n = take n (codes "000000000000000000000000000000000000000000000000000000000000000")

abbrev pub codec : Codec
codec = record {
  encode = λ e. some ((e.seq + 100) ∷ shifted e.prev);
  decode = decoded;
  decode_seq = decoded_seq;
  hash_line = λ l. (48 + length l % 10) ∷ zeros 63;
}

moved : (n : ℕ) → n + 100 - 100 ≡ n
moved n = omega arith

back-shifted : (c : ℕ) (s : Text) → back (c ∷ shifted s) ≡ (c - 100) ∷ back (shifted s)
back-shifted c [] = refl
back-shifted c (d ∷ s) = refl

shifted-back_id : (s : Text) → back (shifted s) ≡ s
shifted-back_id [] = refl
shifted-back_id (c ∷ s) =
    back-shifted (c + 100) s
    ∙ (ap (λ n. n ∷ back (shifted s)) (moved c) ∙ ap (λ t. c ∷ t) (shifted-back_id s))

shifted-no_newline : (s : Text) → All (λ b. b ≢ newline) (shifted s)
shifted-no_newline [] = (λ e. omega arith, tt)
shifted-no_newline (c ∷ s) = (λ e. omega arith, shifted-no_newline s)

shifted-closed : (s : Text) → (body : Bytes) × (shifted s ≡ body ++ b'}' ∷ [])
shifted-closed [] = ([], refl)
shifted-closed (c ∷ s) =
    let (body, same) = shifted-closed s in ((c + 100) ∷ body, ap (λ t. (c + 100) ∷ t) same)

pub length-shifted : (s : Text) → length (shifted s) ≡ length s + 1
length-shifted [] = refl
length-shifted (c ∷ s) = omega (arith, length-shifted s)

pub codec-IsFaithful : Encoding.IsFaithful codec
codec-IsFaithful = record {
  encoding = λ e. (e.seq + 100) ∷ shifted e.prev;
  encodes = λ e. refl;
  decodes = λ e. rw (moved e.seq, shifted-back_id e.prev);
  agrees = decoded-agrees;
  one_line = λ e. (λ h. omega arith, shifted-no_newline e.prev);
  closed = λ e.
      let (body, same) = shifted-closed e.prev in
      ((e.seq + 100) ∷ body, ap (λ t. (e.seq + 100) ∷ t) same);
  hash_length = λ l. refl;
}

-- The base point of P-256.
abbrev pub base_point : PublicKey
base_point = record {
  x = 0x6b17d1f2e12c4247f8bce6e563a440f277037d812deb33a0f4a13945d898c296;
  y = 0x4fe342e2fe1a7f9b8ee7eb4a7c0f9e162bce33576b315ececbb6406837bf51f5;
}

abbrev pub enclave : Enclave
enclave = record {
  se_generate = λ touch. ok (7 ∷ [], marshal_ec_public_key base_point);
  se_sign = λ k digest. ok (1 ∷ 2 ∷ []);
  se_public_key = λ k. ok (marshal_ec_public_key base_point);
}
