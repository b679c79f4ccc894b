-- ===== src/Base64/RoundTrip.antt =====
-- `base64_decode` of libsss/base64.c undoes `base64_encode`.
use blangc.Base64.{
  base64_table, b64_index, encode_group, base64_encode, decoded, prepend, group_bytes, pad_first,
  pad_second, decode_pad, decode_loop, last_is_pad, has_pad, base64_decode,
}
use blangc.Prelude.{
  ℕ, zero, suc, ◌+◌, ◌*◌, ◌-◌, ◌/◌, ◌%◌, ◌<◌, ◌≡◌, refl, ap, ◌∙◌, Bool, true, false, ◌&&◌, not,
  ◌==◌, Option, none, some, [], ◌∷◌, Bytes, length, arith, if◌then◌else◌, ◌⊎◌, inl, inr,
}

-- A test on every number below a bound.
all_below : ℕ → (ℕ → Bool) → Bool
all_below zero f = true
all_below (suc n) f = f n && all_below n f

split : (k n : ℕ) → k < suc n → (k ≡ n) ⊎ (k < n)
split k n l = omega (arith, l)

all_below-at : (n : ℕ) (f : ℕ → Bool) (k : ℕ) → all_below n f ≡ true → k < n → f k ≡ true
unfolding all_below
all_below-at zero f k h l = absurd (omega (arith, l))
all_below-at (suc n) f k h l = elim (split k n l) [
  | inl e ↦ ground (arith, e)
  | inr e ↦ all_below-at n f k (ground arith) e
]

is_some_of : ℕ → Option ℕ → Bool
is_some_of n none = false
is_some_of n (some m) = n == m

-- The index undoes the table, which has no "=".
indexed : ℕ → Bool
unfolding is_some_of
indexed n = is_some_of n (b64_index (base64_table n)) && not (base64_table n == 61)

all_indexed : all_below 64 indexed ≡ true
unfolding all_below indexed is_some_of b64_index base64_table
all_indexed = refl

b64_index-base64_table :
    (n : ℕ) → n < 64 → (b64_index (base64_table n) ≡ some n) × ((base64_table n == 61) ≡ false)
unfolding indexed is_some_of
b64_index-base64_table n h =
    let e = all_below-at 64 indexed n all_indexed h in (ground arith, ground arith)

-- The list holds bytes.
abbrev pub AreBytes : Bytes → Type 0
AreBytes [] = Unit {0}
AreBytes (x ∷ xs) = (x < 256) × AreBytes xs

pads : Bytes → Bool
pads [] = false
pads (a ∷ []) = true
pads (a ∷ b ∷ []) = true
pads (a ∷ b ∷ c ∷ rest) = pads rest

groups : Bytes → ℕ
groups [] = 0
groups (a ∷ []) = 0
groups (a ∷ b ∷ []) = 0
groups (a ∷ b ∷ c ∷ rest) = suc (groups rest)

decode_loop-encode :
    (xs : Bytes) → AreBytes xs → decode_loop (pads xs) (groups xs) (base64_encode xs) ≡ decoded xs
unfolding pads groups base64_encode decode_loop decode_pad pad_first pad_second group_bytes
    encode_group prepend
decode_loop-encode [] h = refl
decode_loop-encode (a ∷ []) h =
    let l = h.0 in
    let (p, p') = b64_index-base64_table (a / 4) (omega arith) in
    let (q, q') = b64_index-base64_table (a % 4 * 16) (omega arith) in ground arith
decode_loop-encode (a ∷ b ∷ []) h =
    let l = h.0 in
    let l' = h.1.0 in
    let (p, p') = b64_index-base64_table (a / 4) (omega arith) in
    let (q, q') = b64_index-base64_table (a % 4 * 16 + b / 16) (omega arith) in
    let (r, r') = b64_index-base64_table (b % 16 * 4) (omega arith) in ground arith
decode_loop-encode (a ∷ b ∷ c ∷ rest) h =
    let l = h.0 in
    let l' = h.1.0 in
    let l'' = h.1.1.0 in
    let (p, p') = b64_index-base64_table (a / 4) (omega arith) in
    let (q, q') = b64_index-base64_table (a % 4 * 16 + b / 16) (omega arith) in
    let (r, r') = b64_index-base64_table (b % 16 * 4 + c / 64) (omega arith) in
    let (s, s') = b64_index-base64_table (c % 64) (omega arith) in
    let e = decode_loop-encode rest h.1.1.1 in ground arith

length-base64_encode :
    (xs : Bytes) → length (base64_encode xs) ≡ 4 * (groups xs + (if pads xs then 1 else 0))
unfolding pads groups base64_encode encode_group
length-base64_encode [] = refl
length-base64_encode (a ∷ []) = refl
length-base64_encode (a ∷ b ∷ []) = refl
length-base64_encode (a ∷ b ∷ c ∷ rest) = omega (arith, length-base64_encode rest)

last_behind : (x : ℕ) (ys : Bytes) → 0 < length ys → last_is_pad (x ∷ ys) ≡ last_is_pad ys
unfolding last_is_pad
last_behind x [] h = elim h [ ]
last_behind x (y ∷ ys) h = refl

base64_encode_long : (a : ℕ) (rest : Bytes) → 0 < length (base64_encode (a ∷ rest))
unfolding base64_encode encode_group
base64_encode_long a [] = omega arith
base64_encode_long a (b ∷ []) = omega arith
base64_encode_long a (b ∷ c ∷ rest) = omega arith

last_is_pad-encode : (xs : Bytes) → AreBytes xs → last_is_pad (base64_encode xs) ≡ pads xs
unfolding pads base64_encode encode_group last_is_pad
last_is_pad-encode [] h = refl
last_is_pad-encode (a ∷ []) h = refl
last_is_pad-encode (a ∷ b ∷ []) h = refl
last_is_pad-encode (a ∷ b ∷ c ∷ []) h =
    let l = h.1.1.0 in let (s, s') = b64_index-base64_table (c % 64) (omega arith) in s'
last_is_pad-encode (a ∷ b ∷ c ∷ d ∷ rest) h =
    last_behind (base64_table (c % 64)) (base64_encode (d ∷ rest)) (base64_encode_long d rest)
    ∙ last_is_pad-encode (d ∷ rest) h.1.1.1

round_trip_empty : base64_decode (base64_encode []) ≡ decoded []
unfolding base64_decode base64_encode has_pad decode_loop last_is_pad
round_trip_empty = refl

-- `base64_decode` returns the bytes that `base64_encode` got, for every list of bytes below 256.
pub base64_decode-base64_encode :
    (xs : Bytes) → AreBytes xs → base64_decode (base64_encode xs) ≡ decoded xs
unfolding base64_decode has_pad
base64_decode-base64_encode [] h = round_trip_empty
base64_decode-base64_encode (x ∷ xs) h =
    let n = length-base64_encode (x ∷ xs) in
    let long = base64_encode_long x xs in
    let l = last_is_pad-encode (x ∷ xs) h in
    let e = decode_loop-encode (x ∷ xs) h in
    let pad : has_pad (base64_encode (x ∷ xs)) ≡ pads (x ∷ xs) = ground arith in
    let rounds : (length (base64_encode (x ∷ xs)) + 3) / 4
          - (if has_pad (base64_encode (x ∷ xs)) then 1 else 0)
        ≡ groups (x ∷ xs) =
      ground arith in
    ap
      (λ p.
        decode_loop p
          ((length (base64_encode (x ∷ xs)) + 3) / 4
            - (if has_pad (base64_encode (x ∷ xs)) then 1 else 0))
          (base64_encode (x ∷ xs)))
      pad
    ∙ ap (λ r. decode_loop (pads (x ∷ xs)) r (base64_encode (x ∷ xs))) rounds
    ∙ e
