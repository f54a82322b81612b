-- ===== src/Key/Point.antt =====
-- `parseECPublicKey` and `marshalECPublicKey` of secureenclave_darwin.go: a point and its 65 bytes.
use native.Mathlib.Nat.{pow-suc, le_trans}
use touchid_agent.Prelude.{
  ℕ, zero, suc, ◌+◌, ◌*◌, ◌^◌, ◌/◌, ◌%◌, ◌<◌, ◌&&◌, true, List, [], ◌∷◌, ◌++◌, ok, ltb, length,
  length-append, take, drop, take_at, drop_at, take-drop, length-take_at, length-drop, none_yet,
  ended, last_view, All, ◌≡◌, refl, sym, ap, ◌∙◌, arith, ltb→lt, &&-eq-true, append-nil, Result,
  Bool, >>=-eq-ok,
}
use touchid_agent.Key.{
  PublicKey, from_bytes, to_bytes, is_on_curve, satisfies_equation, p256, point,
  parse_ec_public_key, marshal_ec_public_key, with_public_key, generate_se_key, KeyError, Enclave,
  Text, err,
}

from_bytes-append :
    (acc : ℕ) (bs : List ℕ) (b : ℕ) → from_bytes acc (bs ++ b ∷ []) ≡ from_bytes acc bs * 256 + b
unfolding from_bytes
from_bytes-append acc [] b = refl
from_bytes-append acc (c ∷ bs) b = from_bytes-append (acc * 256 + c) bs b

length-to_bytes : (w n : ℕ) → length (to_bytes w n) ≡ w
unfolding to_bytes
length-to_bytes zero n = refl
length-to_bytes (suc w) n =
    omega (
      arith,
      length-append {0} (to_bytes w (n / 256)) ((n % 256) ∷ []),
      length-to_bytes w (n / 256),
    )

from_bytes-to_bytes : (w n : ℕ) → n < 256 ^ w → from_bytes 0 (to_bytes w n) ≡ n
unfolding to_bytes
from_bytes-to_bytes zero n h = unfold from_bytes in omega arith
from_bytes-to_bytes (suc w) n h =
    from_bytes-append 0 (to_bytes w (n / 256)) (n % 256)
    ∙ omega (arith, from_bytes-to_bytes w (n / 256) (omega (arith, pow-suc 256 w)))

on_curve_bounds : (x y : ℕ) → is_on_curve x y ≡ true → (x < 256 ^ 32) × (y < 256 ^ 32)
unfolding is_on_curve
on_curve_bounds x y h =
    let (below, rest) = &&-eq-true (ltb x p256) (ltb y p256 && satisfies_equation x y) h in
    let (below', _) = &&-eq-true (ltb y p256) (satisfies_equation x y) rest in
    (le_trans (ltb→lt x p256 below) (omega arith), le_trans (ltb→lt y p256 below') (omega arith))

parse_pieces :
    (a b : List ℕ)
    → length a ≡ 32
    → length b ≡ 32
    → parse_ec_public_key (4 ∷ (a ++ b)) ≡ point (from_bytes 0 a) (from_bytes 0 b)
unfolding parse_ec_public_key
parse_pieces a b e f =
    let whole : length (a ++ b) ≡ 64 = omega (arith, length-append {0} a b) in
    let back : take 32 b ≡ b = rw append-nil at (take_at 32 b [] f) in
    rw (whole, take_at 32 a b e, drop_at 32 a b e, back)

-- Every key whose point lies on the curve is read back from its bytes.
pub parse-marshal :
    (k : PublicKey)
    → is_on_curve k.x k.y ≡ true
    → parse_ec_public_key (marshal_ec_public_key k) ≡ ok k
unfolding marshal_ec_public_key
parse-marshal k h =
    let (bx, by') = on_curve_bounds k.x k.y h in
    parse_pieces (to_bytes 32 k.x) (to_bytes 32 k.y) (length-to_bytes 32 k.x)
      (length-to_bytes 32 k.y)
    ∙ rw (from_bytes-to_bytes 32 k.x bx, from_bytes-to_bytes 32 k.y by') (unfold point in rw h)

abbrev pub AllBytes : List ℕ → Type 0
AllBytes bs = All (λ b. b < 256) bs

AllBytes-init : (bs : List ℕ) (b : ℕ) → AllBytes (bs ++ b ∷ []) → AllBytes bs × (b < 256)
AllBytes-init [] b (h, _) = (tt, h)
AllBytes-init (c ∷ bs) b (h, hs) = let (k, l) = AllBytes-init bs b hs in ((h, k), l)

to_bytes-from_bytes :
    (w : ℕ) (bs : List ℕ) → length bs ≡ w → AllBytes bs → to_bytes w (from_bytes 0 bs) ≡ bs
unfolding to_bytes
to_bytes-from_bytes zero [] e h = refl
to_bytes-from_bytes zero (b ∷ bs) e h = absurd (omega arith)
to_bytes-from_bytes (suc w) bs e h = elim (last_view bs) [
  | none_yet n ↦ absurd (omega (arith, ap (λ (t : List ℕ). length t) n))
  | ended ys y s ↦
      let (hys, hy) = AllBytes-init ys y (rw s at h) in
      let size = omega_length w ys y (ap (λ (t : List ℕ). length t) (sym s) ∙ e) in
      rw (
        s,
        from_bytes-append 0 ys y,
        high (from_bytes 0 ys) y hy,
        low (from_bytes 0 ys) y hy,
        to_bytes-from_bytes w ys size hys,
      )
]
  where
    omega_length : (w : ℕ) (ys : List ℕ) (y : ℕ) → length (ys ++ y ∷ []) ≡ suc w → length ys ≡ w
    omega_length w ys y k = omega (arith, length-append {0} ys (y ∷ []))

    high : (n y : ℕ) → y < 256 → (n * 256 + y) / 256 ≡ n
    high n y k = omega arith

    low : (n y : ℕ) → y < 256 → (n * 256 + y) % 256 ≡ y
    low n y k = omega arith

AllBytes-take : (n : ℕ) (bs : List ℕ) → AllBytes bs → AllBytes (take n bs)
AllBytes-take zero bs h = tt
AllBytes-take (suc n) [] h = tt
AllBytes-take (suc n) (b ∷ bs) (h, hs) = (h, AllBytes-take n bs hs)

AllBytes-drop : (n : ℕ) (bs : List ℕ) → AllBytes bs → AllBytes (drop n bs)
AllBytes-drop zero bs h = h
AllBytes-drop (suc n) [] h = tt
AllBytes-drop (suc n) (b ∷ bs) (h, hs) = AllBytes-drop n bs hs

take_all : (n : ℕ) (bs : List ℕ) → length bs ≡ n → take n bs ≡ bs
take_all n bs e = rw append-nil at (take_at n bs [] e)

parse-eq-ok :
    (tag : ℕ) (rest : List ℕ) (k : PublicKey)
    → parse_ec_public_key (tag ∷ rest) ≡ ok k
    → (length rest ≡ 64)
      × (tag ≡ 4)
      × (k.x ≡ from_bytes 0 (take 32 rest))
      × (k.y ≡ from_bytes 0 (take 32 (drop 32 rest)))
unfolding parse_ec_public_key
parse-eq-ok tag rest k e = ground arith

pub parse-on_curve :
    (raw : List ℕ) (k : PublicKey) → parse_ec_public_key raw ≡ ok k → is_on_curve k.x k.y ≡ true
unfolding parse_ec_public_key point
parse-on_curve [] k h = cc
parse-on_curve (tag ∷ raw) k h = ground arith

halves : (rest : List ℕ) → length rest ≡ 64 → take 32 rest ++ take 32 (drop 32 rest) ≡ rest
halves rest e =
    rw (take_all 32 (drop 32 rest) (omega (arith, length-drop {0} 32 rest))) (take-drop 32 rest)

-- The bytes that are accepted are those that the key is written as: a key has one encoding.
pub marshal-parse :
    (raw : List ℕ) (k : PublicKey)
    → AllBytes raw
    → parse_ec_public_key raw ≡ ok k
    → marshal_ec_public_key k ≡ raw
marshal-parse [] k h e = absurd (unfold parse_ec_public_key in cc e)
marshal-parse (tag ∷ rest) k (h, hs) e =
    let (size, four, ex, ey) = parse-eq-ok tag rest k e in
    unfold marshal_ec_public_key in
    rw (
      four,
      ex,
      ey,
      to_bytes-from_bytes 32 (take 32 rest) (length-take_at 32 rest (omega arith))
          (AllBytes-take 32 rest hs),
      to_bytes-from_bytes 32 (take 32 (drop 32 rest))
          (length-take_at 32 (drop 32 rest) (omega (arith, length-drop {0} 32 rest)))
          (AllBytes-take 32 (drop 32 rest) (AllBytes-drop 32 rest hs)),
      halves rest size,
    )

pair_eq :
    {blob blob' : List ℕ} {k k' : PublicKey}
    → ◌≡◌ {A = Result KeyError (List ℕ × PublicKey)} (ok (blob, k)) (ok (blob', k'))
    → (blob ≡ blob') × (k ≡ k')
pair_eq e = (cc, cc)

with_public_key-eq-ok :
    (enclave : Enclave) (answer : Result Text (List ℕ × List ℕ)) (blob : List ℕ) (k : PublicKey)
    → with_public_key enclave answer ≡ ok (blob, k)
    → (raw : List ℕ) × (answer ≡ ok (blob, raw)) × (parse_ec_public_key raw ≡ ok k)
unfolding with_public_key
with_public_key-eq-ok enclave (err e) blob k h = absurd (cc)
with_public_key-eq-ok enclave (ok (blob', raw)) blob k h =
    let (found, one, later) = >>=-eq-ok (parse_ec_public_key raw) _ h in
    let (same, same') = pair_eq later in
    (raw, rw same refl, one ∙ ap (λ (p : PublicKey). ok p) same')

-- What a generated key came from.
pub generate_se_key-eq-ok :
    (enclave : Enclave) (touch : Bool) (blob : List ℕ) (k : PublicKey)
    → generate_se_key enclave touch ≡ ok (blob, k)
    → (raw : List ℕ) × (enclave.se_generate touch ≡ ok (blob, raw))
      × (parse_ec_public_key raw ≡ ok k)
unfolding generate_se_key
generate_se_key-eq-ok enclave touch blob k h =
    with_public_key-eq-ok enclave (enclave.se_generate touch) blob k h
