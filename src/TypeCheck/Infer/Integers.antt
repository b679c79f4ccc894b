-- ===== src/TypeCheck/Infer/Integers.antt =====
-- The operators whose type is the join of their operands' types, on integers.
use blangc.Prelude.{
  ◌≡◌, refl, sym, ap, ◌∙◌, ◌⊎◌, inl, inr, ◌≤◌, Bool, true, false, not, Option, some, Bytes, streq,
  streq_iff, arith,
}
use blangc.Prelude.Int.{ℤ}
use blangc.TypeCheck.Infer.{get_type}
use blangc.TypeCheck.Math.{or_, xor_, is_bool}
use blangc.TypeCheck.Rules.{join_units, joined_type, binary_type, or_type, xor_type, is_union}
use blangc.TypeCheck.Syntax.{Ast, binary, min_max}
use blangc.TypeCheck.{ok, ◌>>=◌, ◌>>◌, refuse, Env}
use blangc.Types.Precision.Range.{Width, bits_of, InRange}
use blangc.Types.Precision.{is_integral}
use blangc.Types.Relations.Join.{InType, type_or_type-holds}
use blangc.Types.Relations.{type_or_type, Joined, joined, null, generator_of}
use blangc.Types.Units.{type_units}
use blangc.Types.{SssType, tag, base_variant, int_type}

joined_type-ok :
    (j : Joined) (units : Bool) (t : SssType)
    → (joined_type j >>= λ merged. refuse units >> ok merged) ≡ ok t
    → (j ≡ joined t) × (units ≡ false)
unfolding joined_type
joined_type-ok (joined u) true t h = absurd (ground arith)
joined_type-ok (joined u) false t h = (ground arith, refl)
joined_type-ok null units t h = absurd (ground arith)
joined_type-ok (generator_of j) units t h = absurd (ground arith)

join_units-ok :
    (a b t : SssType)
    → join_units a b ≡ ok t
    → (type_or_type (some a) (some b) ≡ joined t) × (type_units a ≡ type_units b)
unfolding join_units
join_units-ok a b t h =
    let (e, f) =
      joined_type-ok (type_or_type (some a) (some b)) (not (streq (type_units a) (type_units b))) t
        h in
    (e, (streq_iff (type_units a) (type_units b)).0 (ground arith))

-- The nodes `l or r`, `l xor r`, and the minimum, the maximum and the mix of `l` and `r`.
abbrev pub IsJoin : Ast → Ast → Ast → Type 0
IsJoin e l r = (e ≡ binary or_ l r) ⊎ (e ≡ binary xor_ l r) ⊎ (e ≡ min_max l r)

IsJoin-join_units :
    (env : Env) (e l r : Ast) (u u' : Option Bytes) (w w' : Width) (s s' : Bool)
    → IsJoin e l r
    → get_type env l ≡ ok (int_type u (bits_of w) s)
    → get_type env r ≡ ok (int_type u' (bits_of w') s')
    → get_type env e ≡ join_units (int_type u (bits_of w) s) (int_type u' (bits_of w') s')
unfolding get_type binary_type or_type xor_type is_bool is_union is_integral base_variant tag
IsJoin-join_units env e l r u u' w w' s s' (inl q) p p' =
    ap (get_type env) q
    ∙ (ap (λ m. m >>= λ a. get_type env r >>= λ b. or_type env a b) p
        ∙ ap (λ m. m >>= λ b. or_type env (int_type u (bits_of w) s) b) p')
IsJoin-join_units env e l r u u' w w' s s' (inr (inl q)) p p' =
    ap (get_type env) q
    ∙ (ap (λ m. m >>= λ a. get_type env r >>= λ b. xor_type env a b) p
        ∙ ap (λ m. m >>= λ b. xor_type env (int_type u (bits_of w) s) b) p')
IsJoin-join_units env e l r u u' w w' s s' (inr (inr q)) p p' =
    ap (get_type env) q
    ∙ (ap (λ m. m >>= λ a. get_type env r >>= λ b. join_units a b) p
        ∙ ap (λ m. m >>= λ b. join_units (int_type u (bits_of w) s) b) p')

-- If `l or r`, `l xor r`, or a minimum, maximum or mix of two integers of the four widths has a type,
-- then the operands have the same units, and the type holds every integer of both operands' types,
-- unless the first is signed and the second unsigned and wider.
pub get_type-holds :
    (env : Env) (e l r : Ast) (u u' : Option Bytes) (w w' : Width) (s s' : Bool) (t : SssType)
    → IsJoin e l r
    → get_type env l ≡ ok (int_type u (bits_of w) s)
    → get_type env r ≡ ok (int_type u' (bits_of w') s')
    → (s ≡ true) ⊎ (s' ≡ false) ⊎ (bits_of w' ≤ bits_of w)
    → get_type env e ≡ ok t
    → (u ≡ u') × ((z : ℤ) → InRange (bits_of w) s z ⊎ InRange (bits_of w') s' z → InType t z)
unfolding type_units
get_type-holds env e l r u u' w w' s s' t j p p' c h =
    let q = sym (IsJoin-join_units env e l r u u' w w' s s' j p p') ∙ h in
    let (f, g) = join_units-ok (int_type u (bits_of w) s) (int_type u' (bits_of w') s') t q in
    (g, λ z i. type_or_type-holds u u' w w' s s' t c f z i)
