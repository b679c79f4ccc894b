-- ===== src/Base64.antt =====
-- libsss/base64.c: base 64. Bytes and sextets are numbers, and the bit operations on their disjoint
-- parts are sums, quotients and remainders. `base64_encode` reads its input byte by byte, whatever
-- the stride, so it takes the bytes from the data pointer on.
pub mod RoundTrip
use blangc.Prelude.{
  ℕ, zero, suc, ◌+◌, ◌*◌, ◌-◌, ◌/◌, ◌%◌, Bool, true, false, ◌&&◌, ◌||◌, ◌==◌, ltb, leb,
  if◌then◌else◌, Option, none, some, List, [], ◌∷◌, ◌++◌, Bytes, codes, get_or, not, length,
}

-- The table of 64 characters.
unfoldable pub base64_table : ℕ → ℕ
base64_table n =
    get_or (codes "ABCDEFGHIJKLMNOPQRSTUVWXYZabcdefghijklmnopqrstuvwxyz0123456789+/") n 0

-- `B64index`, with `none` for -1.
unfoldable pub b64_index : ℕ → Option ℕ
b64_index c =
    if leb 65 c && leb c 90
    then some (c - 65)
    else if leb 97 c && leb c 122
    then some (c - 71)
    else if leb 48 c && leb c 57
    then some (c + 4)
    else if c == 43 || c == 45 || c == 46
    then some 62
    else if c == 44 || c == 47 || c == 95
    then some 63
    else if c == 96
    then some 0
    else none

-- The characters of one group of three bytes.
unfoldable pub encode_group : (a b c : ℕ) → Bytes
encode_group a b c =
    base64_table (a / 4)
    ∷ base64_table (a % 4 * 16 + b / 16)
    ∷ base64_table (b % 16 * 4 + c / 64)
    ∷ base64_table (c % 64)
    ∷ []

unfoldable pub base64_encode : Bytes → Bytes
base64_encode [] = []
base64_encode (a ∷ []) = base64_table (a / 4) ∷ base64_table (a % 4 * 16) ∷ 61 ∷ 61 ∷ []
base64_encode (a ∷ b ∷ []) =
    base64_table (a / 4) ∷ base64_table (a % 4 * 16 + b / 16) ∷ base64_table (b % 16 * 4) ∷ 61 ∷ []
base64_encode (a ∷ b ∷ c ∷ rest) = encode_group a b c ++ base64_encode rest

-- `b64decode_result_t`, or an access behind the text.
pub data Decoded : Type 0 where
  decoded : Bytes → Decoded
  failed : Decoded
  fault : Decoded

unfoldable pub prepend : Bytes → Decoded → Decoded
prepend bytes (decoded rest) = decoded (bytes ++ rest)
prepend bytes failed = failed
prepend bytes fault = fault

-- The three bytes of `n`, unless a character is outside the alphabet and `n` is negative.
unfoldable pub group_bytes : (a b c d : Option ℕ) → Option Bytes
group_bytes (some a) (some b) (some c) (some d) =
    some ((a * 4 + b / 16) ∷ (b % 16 * 16 + c / 4) ∷ (c % 4 * 64 + d) ∷ [])
group_bytes _ _ _ _ = none

-- The bytes of the last group, where -1 sets every bit from its place on.
unfoldable pub pad_first : (a b : Option ℕ) → ℕ
pad_first a none = 255
pad_first none (some b) = 252 + b / 16
pad_first (some a) (some b) = a * 4 + b / 16

unfoldable pub pad_second : (b c : Option ℕ) → ℕ
pad_second b none = 255
pad_second none (some c) = 240 + c / 4
pad_second (some b) (some c) = b % 16 * 16 + c / 4

-- The last group: the branch under `pad`.
unfoldable pub decode_pad : Bytes → Decoded
decode_pad (a ∷ b ∷ []) = decoded (pad_first (b64_index a) (b64_index b) ∷ [])
decode_pad (a ∷ b ∷ c ∷ rest) =
    if c == 61
    then decoded (pad_first (b64_index a) (b64_index b) ∷ [])
    else decoded
        (pad_first (b64_index a) (b64_index b) ∷ pad_second (b64_index b) (b64_index c) ∷ [])
decode_pad _ = fault

-- The loop over the groups.
unfoldable pub decode_loop : (pad : Bool) → (rounds : ℕ) → Bytes → Decoded
decode_loop pad zero p = if pad then decode_pad p else decoded []
decode_loop pad (suc rounds) (a ∷ b ∷ c ∷ d ∷ p) =
    let rest = decode_loop pad rounds p in
    elim (group_bytes (b64_index a) (b64_index b) (b64_index c) (b64_index d)) [
      | none ↦ failed
      | some bytes ↦ prepend bytes rest
    ]
decode_loop pad (suc rounds) _ = fault

unfoldable pub last_is_pad : Bytes → Bool
last_is_pad [] = false
last_is_pad (c ∷ []) = c == 61
last_is_pad (c ∷ d ∷ p) = last_is_pad (d ∷ p)

-- `pad`
unfoldable pub has_pad : Bytes → Bool
unfolding last_is_pad
has_pad p = ltb 0 (length p) && (not (length p % 4 == 0) || last_is_pad p)

-- On the characters of the text, in the order of its stride.
unfoldable pub base64_decode : Bytes → Decoded
base64_decode p = decode_loop (has_pad p) ((length p + 3) / 4 - (if has_pad p then 1 else 0)) p
