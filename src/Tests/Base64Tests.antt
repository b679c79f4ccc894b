-- ===== src/Tests/Base64Tests.antt =====
-- Base 64 at work, and the round trip on an input.
use blangc.Base64.RoundTrip.{base64_decode-base64_encode}
use blangc.Base64.{
  decoded, fault, base64_table, b64_index, encode_group, base64_encode, prepend, group_bytes,
  pad_first, pad_second, decode_pad, decode_loop, last_is_pad, has_pad, base64_decode,
}
use blangc.Prelude.{◌≡◌, refl, [], ◌∷◌, codes, arith}

base64_code : Unit {0}
unfolding base64_table b64_index encode_group base64_encode prepend group_bytes pad_first pad_second
    decode_pad decode_loop last_is_pad has_pad base64_decode
base64_code = tt

encoded : base64_encode (codes "Hello") ≡ codes "SGVsbG8="
unfolding base64_code
encoded = refl

-- The character "!" is outside the alphabet, and the last group is decoded all the same.
not_checked : base64_decode (codes "!A==") ≡ decoded (252 ∷ [])
unfolding base64_code
not_checked = refl

-- A single character behind the groups: the decoder reads the one behind it.
one_behind : base64_decode (codes "QUJDR") ≡ fault
unfolding base64_code
one_behind = refl

base64_decode-base64_encode_example :
    base64_decode (base64_encode (codes "Hi!!")) ≡ decoded (codes "Hi!!")
base64_decode-base64_encode_example =
    base64_decode-base64_encode (codes "Hi!!")
      (omega arith, (omega arith, (omega arith, (omega arith, tt))))
