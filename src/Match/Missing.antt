-- ===== src/Match/Missing.antt =====
-- What `get_missing_pattern` says of lists without patterns, and of what it reads in a list.
use blangc.Match.Cases.{InPats, first, later, bind_ok, any_pattern-InPats}
use blangc.Match.Typed.{well_named, has_members}
use blangc.Prelude.{
  ◌≡◌, refl, sym, ap, subst, ◌⊎◌, inl, inr, Bool, true, false, not, ◌&&◌, ◌||◌, if◌then◌else◌,
  Option, List, Bytes, str_eq→eq, arith,
}
use blangc.TypeCheck.Patterns.{
  any_pattern, is_wildcard, is_bare, is_nil, is_constant, pointed_patterns, handlers, is_end,
  missing_struct, member_missing, any_of, get_missing_pattern, missing_member,
}
use blangc.TypeCheck.Syntax.{Ast, nil_, var, keyword_arg, Asts, end, cons}
use blangc.TypeCheck.{Checked, ok, ◌>>=◌, Env}
use blangc.Types.{
  SssType, Fields, Members, bool_type, pointer_type, struct_type, tagged_union_type, end_members,
  bare_member, member,
}

pub ok-false : (ok true ≡ ok false) → true ≡ false
ok-false h = ground arith

-- Without patterns something is missing, if no union is without members.
pub unnamed :
    (env : Env) (t : SssType)
    → well_named t ≡ true
    → get_missing_pattern env t end ≡ ok false
    → true ≡ false
unfolding get_missing_pattern missing_member member_missing missing_struct well_named has_members
    any_pattern pointed_patterns handlers is_end
unnamed env (tagged_union_type end_members bits) w h = ground arith
unnamed env (tagged_union_type (bare_member n tag_value members) bits) w h =
    let (r, e, f) = bind_ok (missing_member env members end) _ false h in ok-false f
unnamed env (tagged_union_type (member n tag_value has_names fields units members) bits) w h =
    let (r, e, f) = bind_ok (missing_member env members end) _ false h in ok-false f
unnamed env (pointer_type t true is_stack is_readonly) w h = ok-false h
unnamed env (pointer_type t false is_stack is_readonly) w h = unnamed env t w h
unnamed env bool_type w h = ok-false h
unnamed env (struct_type true fields units) w h = ok-false h
unnamed env (struct_type false fields units) w h = ground arith
unnamed env _ w h = ok-false h

-- A keyword argument is no pattern.
pub keyword_missing :
    (env : Env) (t : SssType) (m : Option Bytes) (a : Ast)
    → get_missing_pattern env t (cons (keyword_arg m a) end) ≡ get_missing_pattern env t end
unfolding get_missing_pattern missing_member member_missing missing_struct any_pattern is_wildcard
    is_nil is_constant pointed_patterns handlers is_end
keyword_missing env (tagged_union_type members bits) m a = members_same members
  where
    members_same :
        (members : Members)
        → missing_member env members (cons (keyword_arg m a) end) ≡ missing_member env members end
    members_same end_members = refl
    members_same (bare_member n tag_value members) =
        ap (λ c. c >>= λ rest. ok true) (members_same members)
    members_same (member n tag_value has_names fields units members) =
        ap (λ c. c >>= λ rest. ok true) (members_same members)
keyword_missing env (pointer_type t is_optional is_stack is_readonly) m a = refl
keyword_missing env bool_type m a = refl
keyword_missing env (struct_type true fields units) m a = refl
keyword_missing env (struct_type false fields units) m a = refl
keyword_missing env _ m a = refl

pub is_bare-var : (n : Bytes) (a : Ast) → is_bare n a ≡ true → a ≡ var n
unfolding is_bare
is_bare-var n (var m) h = ap var (sym (str_eq→eq n m h))
is_bare-var n _ h = absurd (ground arith)

pub InPats-bare :
    (n : Bytes) (pats : Asts) → any_pattern (is_bare n) pats ≡ true → InPats (var n) pats
InPats-bare n pats h =
    let (a, i, e) = any_pattern-InPats (is_bare n) pats h in
    subst (λ x. InPats x pats) (is_bare-var n a e) i

pub member_missing-cases :
    (missing : List (Bytes × Ast) → Checked Bool) (has_names : Bool) (fields : Fields) (b : Bool)
    (pats : Asts)
    → member_missing missing has_names fields b pats ≡ ok false
    → (b ≡ true) ⊎ ((has_names ≡ true) × (missing_struct missing fields pats ≡ ok false))
unfolding member_missing
member_missing-cases missing has_names fields b end h = absurd (ground arith)
member_missing-cases missing has_names fields true (cons a pats) h = inl refl
member_missing-cases missing true fields false (cons a pats) h = inr (refl, h)
member_missing-cases missing false fields false (cons a pats) h = absurd (ground arith)

pub single_pattern : {a b : Ast} → InPats a (cons b end) → a ≡ b
single_pattern first = refl
single_pattern (later i) = elim i [ ]

pub if_false : {A : Type 0} (b : Bool) (x y z : A) → b ≡ false → (if b then x else y) ≡ z → y ≡ z
if_false true x y z e h = absurd (ground arith)
if_false false x y z e h = h

pub any_pattern-single : (f : Ast → Bool) (a : Ast) → any_pattern f (cons a end) ≡ f a
unfolding any_pattern
any_pattern-single f a = ground arith

pub any_of-false :
    (b : Bool) (m : Checked Bool) → any_of b m ≡ ok false → (b ≡ false) × (m ≡ ok false)
unfolding any_of
any_of-false true m h = absurd (ground arith)
any_of-false false m h = (refl, h)

pub and_left : (x y : Bool) → (x && y) ≡ true → x ≡ true
and_left x y h = ground arith

pub and_right : (x y : Bool) → (x && y) ≡ true → y ≡ true
and_right x y h = ground arith

pub not-true : (x : Bool) → not x ≡ true → x ≡ false
not-true x h = ground arith

pub or_false : (x y : Bool) → (ok (x || y) ≡ ok false) → (x ≡ false) × (y ≡ false)
or_false x y h = ground arith

pub or_right : (x y : Bool) → x ≡ false → (x || y) ≡ true → y ≡ true
or_right x y e h = ground arith

pub nil-pointed : (env : Env) (a : Ast) → is_nil env a ≡ true → pointed_patterns (cons a end) ≡ end
unfolding is_nil pointed_patterns
nil-pointed env (nil_ t) h = refl
nil-pointed env (var name) h = refl
nil-pointed env _ h = absurd (ground arith)
