-- ===== src/Key.antt =====
-- secureenclave_darwin.go: a key, its public point as bytes, and the signature by the Secure Enclave.
-- The bridge to the enclave (`se_generate`, `se_sign`, `se_public_key`) is the interface `Enclave`.
pub mod Point
use touchid_agent.Prelude.{
  ℕ, zero, suc, ◌+◌, ◌*◌, ◌-◌, ◌^◌, ◌%◌, ◌/◌, Bool, true, false, not, ◌&&◌, ◌||◌, List, [], ◌∷◌,
  ◌++◌, Option, none, some, Result, ok, err, ◌>>=◌, ltb, leb, ◌==◌, length, take, drop,
  if◌then◌else◌,
}
use touchid_agent.Text.{Text, is_empty}
use touchid_agent.Policy.{CallerRule}

-- An ecdsa.PublicKey on P-256.
pub record PublicKey : Type 0 where
  pub x : ℕ
  pub y : ℕ

pub record Key : Type 0 where
  pub label : Text
  pub require_touch : Bool
  pub caller_rules : List CallerRule
  pub public_key : PublicKey
  pub key_data : List ℕ
  pub sign_fn : Option (Text → List ℕ → Result Text (List ℕ))

-- What the library of the Secure Enclave answers: the error's text, or the bytes.
pub record Enclave : Type 0 where
  pub se_generate : Bool → Result Text (List ℕ × List ℕ)
  pub se_sign : List ℕ → List ℕ → Result Text (List ℕ)
  pub se_public_key : List ℕ → Result Text (List ℕ)

-- big.Int.SetBytes, and big.Int.Bytes behind as many zeros as a width leaves
unfoldable pub from_bytes : ℕ → List ℕ → ℕ
from_bytes acc [] = acc
from_bytes acc (b ∷ bs) = from_bytes (acc * 256 + b) bs

unfoldable pub to_bytes : ℕ → ℕ → List ℕ
to_bytes zero n = []
to_bytes (suc w) n = to_bytes w (n / 256) ++ (n % 256) ∷ []

abbrev pub p256 : ℕ
p256 = 2 ^ 256 - 2 ^ 224 + 2 ^ 192 + 2 ^ 96 - 1

satisfies_equation : ℕ → ℕ → Bool
satisfies_equation x y =
    y * y % p256
    == (x * x * x
        + (p256 - 3) * x
        + 0x5ac635d8aa3a93e7b3ebbd55769886bc651d06b0cc53b0f63bce3c3e27d2604b)
      % p256

-- elliptic.P256().IsOnCurve
unfoldable pub is_on_curve : ℕ → ℕ → Bool
unfolding satisfies_equation
is_on_curve x y = ltb x p256 && (ltb y p256 && satisfies_equation x y)

pub data KeyError : Type 0 where
  unexpected_format : ℕ → KeyError
  not_on_curve key_data_empty no_blob : KeyError
  bad_digest_length : ℕ → KeyError
  enclave_failed : Text → KeyError
  signer_failed : Text → KeyError

point : ℕ → ℕ → Result KeyError PublicKey
point x y = if is_on_curve x y then ok (record { x = x; y = y }) else err not_on_curve

unfoldable pub parse_ec_public_key : List ℕ → Result KeyError PublicKey
unfolding point
parse_ec_public_key [] = err (unexpected_format 0)
parse_ec_public_key (tag ∷ raw) =
    if not (length raw == 64) || not (tag == 4)
    then err (unexpected_format (length (tag ∷ raw)))
    else point (from_bytes 0 (take 32 raw)) (from_bytes 0 (take 32 (drop 32 raw)))

-- For coordinates below 2^256, as those of every point of the curve are.
unfoldable pub marshal_ec_public_key : PublicKey → List ℕ
marshal_ec_public_key pub' = 4 ∷ (to_bytes 32 pub'.x ++ to_bytes 32 pub'.y)

wrap_error : Result Text (List ℕ) → Result KeyError (List ℕ)
wrap_error (ok sig) = ok sig
wrap_error (err msg) = err (enclave_failed msg)

sign_by_hook : Result Text (List ℕ) → Result KeyError (List ℕ)
sign_by_hook (ok sig) = ok sig
sign_by_hook (err msg) = err (signer_failed msg)

module _ (enclave : Enclave) where
  open enclave use {se_generate, se_sign, se_public_key}

  sign_in_enclave : Key → List ℕ → Result KeyError (List ℕ)
  unfolding wrap_error is_empty
  sign_in_enclave k digest =
      if not (length digest == 32)
      then err (bad_digest_length (length digest))
      else if is_empty k.key_data
      then err no_blob
      else wrap_error (se_sign k.key_data digest)

  sign_with :
      Option (Text → List ℕ → Result Text (List ℕ)) → Key → List ℕ → Result KeyError (List ℕ)
  sign_with (some hook) k digest = sign_by_hook (hook k.label digest)
  sign_with none k digest = sign_in_enclave k digest

  -- `Key.Sign`
  unfoldable pub sign : Key → List ℕ → Result KeyError (List ℕ)
  unfolding sign_with sign_by_hook sign_in_enclave
  sign k digest = sign_with k.sign_fn k digest

  with_public_key : Result Text (List ℕ × List ℕ) → Result KeyError (List ℕ × PublicKey)
  with_public_key (err msg) = err (enclave_failed msg)
  with_public_key (ok (key_data, raw)) = do found ← parse_ec_public_key raw; ok (key_data, found)

  unfoldable pub generate_se_key : Bool → Result KeyError (List ℕ × PublicKey)
  unfolding with_public_key
  generate_se_key require_touch = with_public_key (se_generate require_touch)

  parse_answer : Result Text (List ℕ) → Result KeyError PublicKey
  parse_answer (err msg) = err (enclave_failed msg)
  parse_answer (ok raw) = parse_ec_public_key raw

  unfoldable pub se_public_key_of : List ℕ → Result KeyError PublicKey
  unfolding parse_answer is_empty
  se_public_key_of key_data =
      if is_empty key_data then err key_data_empty else parse_answer (se_public_key key_data)
