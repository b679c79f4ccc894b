-- ===== src/Arguments/Unnamed.antt =====
-- Calls without names in args.c.
use blangc.Arguments.{
  bound, is_keyword, no_keywords, skips, next_position, drop_names, prepend, bind_loop,
  has_position, defaults, stored, fill_infos, with_defaults, bind_arguments,
}
use blangc.Prelude.{
  ℕ, zero, suc, ◌+◌, ◌-◌, ◌≤◌, ◌<◌, ◌≡◌, refl, sym, ap, ◌∙◌, true, false, ltb, leb, ◌&&◌, Option,
  none, some, List, [], ◌∷◌, ◌++◌, Bytes, length, arith,
}

-- So many numbers in order, from one on.
abbrev pub numbers : (from n : ℕ) → List ℕ
numbers from zero = []
numbers from (suc n) = from ∷ numbers (from + 1) n

-- A call without names.
abbrev pub unnamed : ℕ → List (Option Bytes)
unnamed zero = []
unnamed (suc k) = none ∷ unnamed k

unnamed-no_keywords : (k : ℕ) → no_keywords (unnamed k) ≡ true
unfolding no_keywords
unnamed-no_keywords zero = refl
unnamed-no_keywords (suc k) = unnamed-no_keywords k

unnamed-is_keyword : (k : ℕ) (name : Bytes) → is_keyword (unnamed k) name ≡ false
unfolding is_keyword
unnamed-is_keyword zero name = refl
unnamed-is_keyword (suc k) name = unnamed-is_keyword k name

skips-unnamed : (k : ℕ) (name : Option Bytes) → skips (unnamed k) name ≡ some false
unfolding skips
skips-unnamed k none = rw (unnamed-no_keywords k) refl
skips-unnamed k (some name) = ap some (unnamed-is_keyword k name)

next_position-unnamed :
    (k : ℕ) (names : List (Option Bytes)) (n next : ℕ)
    → n < length names
    → next_position (unnamed k) (drop_names n names) next ≡ some next
unfolding next_position drop_names
next_position-unnamed k [] n next h = elim h [ ]
next_position-unnamed k (m ∷ names) zero next h = rw (skips-unnamed k m, next_position) refl
next_position-unnamed k (m ∷ names) (suc n) next h =
    next_position-unnamed k names n next (omega (arith, h))

bind_loop-unnamed :
    (all : ℕ) (names : List (Option Bytes)) (k next : ℕ)
    → next + k ≤ length names
    → bind_loop (unnamed all) names (unnamed k) next ≡ bound (numbers next k)
unfolding bind_loop prepend
bind_loop-unnamed all names zero next h = refl
bind_loop-unnamed all names (suc k) next h =
    let e = next_position-unnamed all names next next (omega (arith, h)) in
    let ih = bind_loop-unnamed all names k (next + 1) (omega (arith, h)) in
    rw (e, bind_loop, ih) refl

has_position-numbers :
    (from k i : ℕ) → has_position (numbers from k) i ≡ (leb from i && ltb i (from + k))
unfolding has_position
has_position-numbers from zero i = ground arith
has_position-numbers from (suc k) i =
    let ih = has_position-numbers (from + 1) k i in ground (arith, ih)

-- The parameters from number `i` on, where the first `k` are used.
defaults-behind :
    (names : List (Option Bytes)) (i k : ℕ)
    → k ≤ i
    → defaults names i (numbers 0 k) ≡ numbers i (length names)
unfolding defaults
defaults-behind [] i k h = refl
defaults-behind (m ∷ names) i k h =
    let e = has_position-numbers 0 k i in
    let ih = defaults-behind names (i + 1) k (omega (arith, h)) in ground (arith, e, ih, h)

defaults-numbers :
    (names : List (Option Bytes)) (i k n : ℕ)
    → i + n ≡ k
    → n ≤ length names
    → defaults names i (numbers 0 k) ≡ numbers k (length names - n)
unfolding defaults
defaults-numbers names i k zero h l =
    let same : i ≡ k = omega (arith, h) in
    let all : length names ≡ length names - 0 = omega arith in
    defaults-behind names i k (omega (arith, h))
    ∙ (ap (λ j. numbers j (length names)) same ∙ ap (numbers k) all)
defaults-numbers [] i k (suc n) h l = elim l [ ]
defaults-numbers (m ∷ names) i k (suc n) h l =
    let e = has_position-numbers 0 k i in
    let ih = defaults-numbers names (i + 1) k n (omega (arith, h)) (omega (arith, l)) in
    let q : length names - n ≡ suc (length names) - suc n = omega arith in
    let used : has_position (numbers 0 k) i ≡ true = e ∙ ground (arith, h) in
    rw (used, defaults) (ih ∙ ap (numbers k) q)

numbers-append : (from m n : ℕ) → numbers from m ++ numbers (from + m) n ≡ numbers from (m + n)
numbers-append from zero n =
    let a : from + 0 ≡ from = omega arith in
    let b : n ≡ 0 + n = omega arith in ap (λ j. numbers j n) a ∙ ap (numbers from) b
numbers-append from (suc m) n =
    let a : from + suc m ≡ from + 1 + m = omega arith in
    let b : suc (m + n) ≡ suc m + n = omega arith in
    ap (λ j. from ∷ (numbers (from + 1) m ++ numbers j n)) a
    ∙ (ap (λ r. from ∷ r) (numbers-append (from + 1) m n) ∙ ap (numbers from) b)

stored-fits : (room : ℕ) (ps : List ℕ) → length ps ≤ room → stored room ps ≡ bound ps
unfolding stored prepend
stored-fits room [] h = refl
stored-fits zero (p ∷ ps) h = elim h [ ]
stored-fits (suc room) (p ∷ ps) h = rw (stored-fits room ps (omega (arith, h))) refl

length-numbers : (from n : ℕ) → length (numbers from n) ≡ n
length-numbers from zero = refl
length-numbers from (suc n) = ap suc (length-numbers (from + 1) n)

-- A call with no more arguments than parameters, none of which has a name, is bound: the arguments to
-- the first parameters in order, and the defaults of the others follow in order.
pub bind_arguments-unnamed :
    (names : List (Option Bytes)) (k : ℕ)
    → k ≤ length names
    → bind_arguments names (unnamed k) ≡ bound (numbers 0 (length names))
unfolding bind_arguments with_defaults fill_infos
bind_arguments-unnamed names k h =
    let e = bind_loop-unnamed k names k 0 (omega (arith, h)) in
    let d = defaults-numbers names 0 k k (omega arith) h in
    let c : 0 + k ≡ k = omega arith in
    let n : k + (length names - k) ≡ length names = omega (arith, h) in
    let all : numbers 0 k ++ defaults names 0 (numbers 0 k) ≡ numbers 0 (length names) =
      ap (λ r. numbers 0 k ++ r) d
      ∙ (ap (λ j. numbers 0 k ++ numbers j (length names - k)) (sym c)
          ∙ (numbers-append 0 k (length names - k) ∙ ap (numbers 0) n)) in
    ap (with_defaults names) e
    ∙ (ap (stored (length names)) all
        ∙ stored-fits (length names) (numbers 0 (length names))
            (omega (arith, length-numbers 0 (length names))))
