-- ===== src/Arrays/Ranges.antt =====
-- `range_slice` of libsss/utils.c: the part of an array that a range names, which shares its memory.
-- Ranges count from 1. The source's pointer moves by `item_size`, one cell here, for each place. The
-- stride is counted in items here and in bytes in the source, which has it cut to 16 bits: `none` is
-- a stride that the cut leaves at no whole number of items.
use blangc.Prelude.Int.{ℤ, pos, negsuc, ◌+ℤ◌, ◌-ℤ◌, ◌*ℤ◌, eq_ℤ, ltb_ℤ, sub_ℕ, pos_part}
use blangc.Prelude.{
  ℕ, zero, suc, ◌+◌, ◌-◌, ◌*◌, ◌/◌, ◌%◌, ◌^◌, ◌≤◌, ◌<◌, ◌≡◌, sym, ap, ◌∙◌, Option, none, some, inl,
  inr, false, Bool-cases, leb, ltb, if◌then◌else◌, arith,
}
use native.Mathlib.Nat.{le-div_iff_mul-le, mul-add-div, mod-eq-sub-mul-div}
use blangc.Slice.{Slice, item, read}

-- `range_t`
pub record Range : Type 0 where
  pub first : ℤ
  pub stride : ℤ
  pub last : ℤ

abbrev int64_min : ℤ
int64_min = negsuc (2 ^ 63 - 1)

abbrev int64_max : ℤ
int64_max = pos (2 ^ 63 - 1)

-- The stride in the bounds of 16 bits.
unfoldable pub clamped : ℤ → ℤ
clamped (pos n) = if ltb 32767 n then pos 32767 else pos n
clamped (negsuc n) = if ltb 32767 n then negsuc 32767 else negsuc n

-- `%` and `/` of C by a positive number, which cut towards 0.
unfoldable pub rem : ℤ → ℕ → ℤ
rem (pos n) k = pos (n % k)
rem (negsuc n) k = sub_ℕ 0 (suc n % k)

unfoldable pub quot : ℤ → ℕ → ℤ
quot (pos n) k = pos (n / k)
quot (negsuc n) k = sub_ℕ 0 (suc n / k)

-- `while (first < 1) first += stride;` in so many rounds.
unfoldable pub raise : (rounds : ℕ) → (first : ℤ) (k : ℕ) → ℤ
raise zero first k = first
raise (suc rounds) first k =
    let rest = raise rounds (first +ℤ pos k) k in if ltb_ℤ first (pos 1) then rest else first

-- The first place for a positive stride, and for a negative one.
unfoldable pub first_up : (first : ℤ) (k : ℕ) → ℤ
first_up first k =
    let start = if eq_ℤ first int64_min then pos 1 else first in
    let kept = if ltb_ℤ start (pos 1) then rem start k else start in raise k kept k

unfoldable pub first_down : (len : ℕ) (first : ℤ) (k : ℕ) → ℤ
first_down len first k =
    let start = if eq_ℤ first int64_min then pos len else first in
    let kept = if ltb_ℤ (pos len) start then pos len -ℤ pos (len % k) +ℤ rem start k else start in
    if ltb_ℤ (pos len) kept then kept -ℤ pos k else kept

-- The number of items, from their number by the range.
unfoldable pub capped : (len k : ℕ) → ℤ → ℕ
capped len k (pos n) = if ltb (len / k + 1) n then len / k + 1 else n
capped len k (negsuc n) = 0

-- `(int16_t)`
unfoldable pub wrap_int16 : ℤ → ℤ
wrap_int16 (pos n) = let m = n % 2 ^ 16 in if ltb m (2 ^ 15) then pos m else sub_ℕ m (2 ^ 16)
wrap_int16 (negsuc n) =
    let m = 2 ^ 16 - 1 - n % 2 ^ 16 in if ltb m (2 ^ 15) then pos m else sub_ℕ m (2 ^ 16)

-- A number of bytes in items of a size, if it is a whole number of items.
unfoldable pub in_items : (item_size : ℕ) → ℤ → Option ℤ
in_items item_size z = if eq_ℤ (rem z item_size) (pos 0) then some (quot z item_size) else none

module _ {A : Type 0} where
  unfoldable pub nothing_of : Slice A → Slice A
  nothing_of s = record {
    memory = s.memory;
    start = s.start;
    length = 0;
    stride = pos 1;
    free = pos 0;
  }

  unfoldable pub with_stride : Slice A → (at len : ℕ) → Option ℤ → Option (Slice A)
  with_stride s at len none = none
  with_stride s at len (some stride) = some (record {
    memory = s.memory;
    start = s.start + at;
    length = len;
    stride = stride;
    free = negsuc 0;
  })

  -- The slice from a first place on.
  unfoldable pub slice_at :
      (item_size : ℕ) → Slice A → (first : ℤ) → (len : ℕ) → (stride : ℤ) → Option (Slice A)
  unfolding nothing_of wrap_int16 in_items with_stride
  slice_at item_size s (pos zero) len stride = some (nothing_of s)
  slice_at item_size s (pos (suc at)) len stride =
      with_stride s at len (in_items item_size (wrap_int16 (pos item_size *ℤ s.stride *ℤ stride)))
  slice_at item_size s (negsuc n) len stride = some (nothing_of s)

  unfoldable pub slice_up :
      (item_size : ℕ) → Slice A → (first last : ℤ) → (k : ℕ) → Option (Slice A)
  unfolding slice_at capped quot
  slice_up item_size s first last k =
      let end = if eq_ℤ last int64_max then pos s.length else last in
      if ltb_ℤ (pos s.length) first
      then some (nothing_of s)
      else slice_at item_size s first (capped s.length k (quot (end -ℤ first) k +ℤ pos 1)) (pos k)

  unfoldable pub slice_down :
      (item_size : ℕ) → Slice A → (first last : ℤ) → (k : ℕ) → Option (Slice A)
  unfolding slice_at capped quot
  slice_down item_size s first last k =
      let end = if eq_ℤ last int64_max then pos 1 else last in
      if ltb_ℤ first (pos 1)
      then some (nothing_of s)
      else slice_at item_size s first (capped s.length k (quot (first -ℤ end) k +ℤ pos 1))
          (pos 0 -ℤ pos k)

  unfoldable pub range_stride : (item_size : ℕ) → Slice A → Range → ℤ → Option (Slice A)
  unfolding first_up first_down slice_up slice_down nothing_of
  range_stride item_size s range (pos zero) = some (nothing_of s)
  range_stride item_size s range (pos (suc k)) =
      slice_up item_size s (first_up range.first (suc k)) range.last (suc k)
  range_stride item_size s range (negsuc k) =
      slice_down item_size s (first_down s.length range.first (suc k)) range.last (suc k)

  unfoldable pub range_slice : (item_size : ℕ) → Slice A → Range → Option (Slice A)
  unfolding range_stride clamped
  range_slice item_size s range = range_stride item_size s range (clamped range.stride)

capped-bound : (len k : ℕ) (z : ℤ) → capped len k z ≤ pos_part z
unfolding capped
capped-bound len k (pos m) = ground arith
capped-bound len k (negsuc m) = ground arith

-- The number of items by a range that goes up.
steps_up :
    (at m k : ℕ)
    → pos_part (quot (pos m -ℤ pos (suc at)) (suc k) +ℤ pos 1) ≤ (m - suc at) / suc k + 1
unfolding quot ◌-ℤ◌ ◌+ℤ◌
steps_up at m k = elim (Bool-cases (leb (suc at) m)) [ inl e ↦ ground arith | inr e ↦ ground arith ]

items_up :
    (at m k i len : ℕ)
    → i < capped len (suc k) (quot (pos m -ℤ pos (suc at)) (suc k) +ℤ pos 1)
    → i ≤ (m - suc at) / suc k
items_up at m k i len h =
    let b = capped-bound len (suc k) (quot (pos m -ℤ pos (suc at)) (suc k) +ℤ pos 1) in
    let c = steps_up at m k in omega (arith, b, c, h)

-- The place of an item, which is in the array if the first and the last one are.
place_up : (at m k i len : ℕ) → at < len → m ≤ len → i ≤ (m - suc at) / suc k → at + i * suc k < len
place_up at m k i len a b h =
    let le = (le-div_iff_mul-le {k = suc k} {x = i} {y = m - suc at} (omega arith)).0 h in
    omega (arith, le, a, b)

pos-*ℤ : (a b : ℕ) → pos a *ℤ pos b ≡ pos (a * b)
unfolding ◌*ℤ◌
pos-*ℤ a b = ground arith

pos-+ℤ : (a b : ℕ) → pos a +ℤ pos b ≡ pos (a + b)
unfolding ◌+ℤ◌
pos-+ℤ a b = ground arith

-- The position of item number `i` of a slice that begins `at` places on.
position_up :
    (start at i k : ℕ) → pos (start + at) +ℤ pos i *ℤ pos k ≡ pos start +ℤ pos (at + i * k) *ℤ pos 1
position_up start at i k =
    rw
      (
        pos-*ℤ i k,
        pos-+ℤ (start + at) (i * k),
        pos-*ℤ (at + i * k) 1,
        pos-+ℤ start ((at + i * k) * 1),
      )
      (ap pos (omega arith))

-- The range from place `at + 1` to place `m` by `k + 1`.
abbrev pub up : (at k m : ℕ) → Range
up at k m = record { first = pos (suc at); stride = pos (suc k); last = pos m }

clamped-small : (k : ℕ) → k < 2 ^ 15 - 1 → clamped (pos (suc k)) ≡ pos (suc k)
unfolding clamped
clamped-small k h = ground arith

first_up-place : (at k : ℕ) → first_up (pos (suc at)) (suc k) ≡ pos (suc at)
unfolding first_up raise
first_up-place at k = ground arith

below_max : (m : ℕ) → m < 2 ^ 31 → eq_ℤ (pos m) int64_max ≡ false
below_max m h = ground arith

-- A stride of whole items that fits into 16 bits.
in_items-fits :
    (w k : ℕ)
    → 0 < w
    → w * suc k < 2 ^ 15
    → in_items w (wrap_int16 (pos w *ℤ pos 1 *ℤ pos (suc k))) ≡ some (pos (suc k))
unfolding in_items wrap_int16 rem quot
in_items-fits w k h b =
    let e : w * 1 ≡ w = omega arith in
    let q = mul-add-div {m = w} h (suc k) 0 in
    let d = mod-eq-sub-mul-div (w * suc k) w in
    rw (pos-*ℤ w 1, e, pos-*ℤ w (suc k)) (ground (arith, b, q, d))

small_stride : (w k : ℕ) → 0 < w → w * suc k < 2 ^ 15 → k < 2 ^ 15 - 1
small_stride zero k h b = elim h [ ]
small_stride (suc w) k h b = grind (arith, b)

module _ {A : Type 0} where
  range_slice-slice_up :
      (w : ℕ) (s : Slice A) (at m k : ℕ)
      → s.length < 2 ^ 31
      → m ≤ s.length
      → k < 2 ^ 15 - 1
      → range_slice w s (up at k m) ≡ (
          if ltb_ℤ (pos s.length) (pos (suc at))
          then some (nothing_of s)
          else slice_at w s
              (pos (suc at))
              (capped s.length (suc k) (quot (pos m -ℤ pos (suc at)) (suc k) +ℤ pos 1))
              (pos (suc k)))
  unfolding range_slice range_stride slice_up
  range_slice-slice_up w s at m k h b c =
      ap (range_stride w s (up at k m)) (clamped-small k c)
      ∙ (ap (λ z. slice_up w s z (pos m) (suc k)) (first_up-place at k)
          ∙ ap
              (λ x.
                if ltb_ℤ (pos s.length) (pos (suc at))
                then some (nothing_of s)
                else slice_at w s (pos (suc at))
                    (capped s.length (suc k)
                      (quot ((if x then pos s.length else pos m) -ℤ pos (suc at)) (suc k) +ℤ pos 1))
                    (pos (suc k)))
              (below_max m (omega (arith, b, h))))

  slice_at-fits :
      (w : ℕ) (s : Slice A) (at len k : ℕ)
      → s.stride ≡ pos 1
      → 0 < w
      → w * suc k < 2 ^ 15
      → slice_at w s (pos (suc at)) len (pos (suc k))
        ≡ some (record {
          memory = s.memory;
          start = s.start + at;
          length = len;
          stride = pos (suc k);
          free = negsuc 0;
        })
  unfolding slice_at with_stride
  slice_at-fits w s at len k u h b =
      ap (λ z. with_stride s at len (in_items w (wrap_int16 (pos w *ℤ z *ℤ pos (suc k))))) u
      ∙ ap (with_stride s at len) (in_items-fits w k h b)

  -- In an array of stride 1 and a length of 32 bits, for a range that goes up from place `at + 1` by
  -- `k + 1` and whose last place is in the array, where the stride in bytes fits into 16 bits: there is
  -- a slice, and each item of it is an item of the array, number `i` the one `i` strides behind the
  -- first place, which is in the array.
  pub range_slice-item :
      (w : ℕ) (s : Slice A) (at m k : ℕ)
      → s.stride ≡ pos 1
      → s.length < 2 ^ 31
      → m ≤ s.length
      → 0 < w
      → w * suc k < 2 ^ 15
      → (r : Slice A) × (range_slice w s (up at k m) ≡ some r)
        × ((i : ℕ)
            → i < r.length
            → (at + i * suc k < s.length) × (item r i ≡ item s (at + i * suc k)))
  unfolding nothing_of item
  range_slice-item w s at m k u h b p c =
      let small : k < 2 ^ 15 - 1 = small_stride w k p c in
      let e = range_slice-slice_up w s at m k h b small in
      let len = capped s.length (suc k) (quot (pos m -ℤ pos (suc at)) (suc k) +ℤ pos 1) in
      elim (Bool-cases (ltb_ℤ (pos s.length) (pos (suc at)))) [
        | inl o ↦ (nothing_of s, ground (arith, e, o), λ i lt. absurd (ground (arith, lt)))
        | inr o ↦ (
          record {
            memory = s.memory;
            start = s.start + at;
            length = len;
            stride = pos (suc k);
            free = negsuc 0;
          },
          e
              ∙ (ap
                    (λ x.
                      if x
                      then some (nothing_of s)
                      else slice_at w s (pos (suc at)) len (pos (suc k)))
                    o
                  ∙ slice_at-fits w s at len k u p c),
          λ i lt. (
            place_up at m k i s.length (ground (arith, o)) b (items_up at m k i s.length lt),
            ap (read s.memory) (
                position_up s.start at i (suc k)
                ∙ ap (λ z. pos s.start +ℤ pos (at + i * suc k) *ℤ z) (sym u)),
          ),
        )
      ]
