-- ===== src/Match/Typed.antt =====
-- The values of a type, and the types whose fields and members have names to tell them apart.
use blangc.Match.Named.{distinct_names, FieldAt, here, there}
use blangc.Match.{
  Value, bool_value, null_pointer, pointer_to, struct_value, union_value, Values, end_values, value,
  Test, values_field, member_tag,
}
use blangc.Prelude.Int.{ℤ, eq_ℤ}
use blangc.Prelude.{
  ℕ, ◌≡◌, refl, subst, Bool-cases, inl, inr, Bool, true, false, not, ◌&&◌, ◌||◌, Option, none, some,
  Bytes, str_eq, str_eq_refl, str_eq→eq, arith,
}
use blangc.TypeCheck.Patterns.{is_member, member_fields}
use blangc.Types.{
  SssType, Fields, Members, bool_type, pointer_type, struct_type, tagged_union_type, variant_type,
  end_fields, field, end_members, bare_member, member,
}

unfoldable pub no_values : Values → Bool
no_values end_values = true
no_values (value v values) = false

-- Only the types that patterns look into are told apart.
unfoldable mutual
  pub has_type : SssType → Value → Bool
  has_type bool_type (bool_value b) = true
  has_type bool_type v = false
  has_type (pointer_type t is_optional is_stack is_readonly) null_pointer = is_optional
  has_type (pointer_type t is_optional is_stack is_readonly) (pointer_to v) = has_type t v
  has_type (pointer_type t is_optional is_stack is_readonly) v = false
  has_type (struct_type has_names fields units) (struct_value values) = fields_hold fields values
  has_type (struct_type has_names fields units) v = false
  has_type (tagged_union_type members bits) (union_value tag values) =
      members_hold members tag values
  has_type (tagged_union_type members bits) v = false
  has_type (variant_type name filename t) v = has_type t v
  has_type t v = true

  pub fields_hold : Fields → Values → Bool
  fields_hold end_fields values = no_values values
  fields_hold (field name t fields) end_values = false
  fields_hold (field name t fields) (value v values) = has_type t v && fields_hold fields values

  pub members_hold : Members → ℤ → Values → Bool
  members_hold end_members tag values = false
  members_hold (bare_member name tag_value members) tag values =
      eq_ℤ tag tag_value && no_values values || members_hold members tag values
  members_hold (member name tag_value has_names fields units members) tag values =
      eq_ℤ tag tag_value && fields_hold fields values || members_hold members tag values

unfoldable pub distinct_members : Members → Bool
distinct_members end_members = true
distinct_members (bare_member name tag_value members) =
    not (is_member members name) && distinct_members members
distinct_members (member name tag_value has_names fields units members) =
    not (is_member members name) && distinct_members members

unfoldable pub has_members : Members → Bool
has_members end_members = false
has_members _ = true

-- All fields have names, fields and members differ in theirs, and no union is without members.
unfoldable mutual
  pub well_named : SssType → Bool
  well_named (pointer_type t is_optional is_stack is_readonly) = well_named t
  well_named (struct_type has_names fields units) = distinct_names fields && fields_named fields
  well_named (tagged_union_type members bits) =
      has_members members && distinct_members members && members_named members
  well_named (variant_type name filename t) = well_named t
  well_named t = true

  pub fields_named : Fields → Bool
  fields_named end_fields = true
  fields_named (field name t fields) = well_named t && fields_named fields

  pub members_named : Members → Bool
  members_named end_members = true
  members_named (bare_member name tag_value members) = members_named members
  members_named (member name tag_value has_names fields units members) =
      distinct_names fields && fields_named fields && members_named members

pub data MemberIn (n : Bytes) (tag : ℤ) (parts : Option (Bool × (Fields × Option Bytes)))
    : Members → Type 0 where
  here_bare : {members : Members} → parts ≡ none → MemberIn n tag parts (bare_member n tag members)
  here_member :
      {has_names : Bool} {fields : Fields} {units : Option Bytes} {members : Members}
      → parts ≡ some (has_names, (fields, units))
      → MemberIn n tag parts (member n tag has_names fields units members)
  past_bare :
      {m : Bytes} {v : ℤ} {members : Members}
      → MemberIn n tag parts members
      → MemberIn n tag parts (bare_member m v members)
  past_member :
      {m : Bytes} {v : ℤ} {has_names : Bool} {fields : Fields} {units : Option Bytes}
      {members : Members}
      → MemberIn n tag parts members
      → MemberIn n tag parts (member m v has_names fields units members)

MemberIn-is_member :
    {n : Bytes} {tag : ℤ} {parts : Option (Bool × (Fields × Option Bytes))} {members : Members}
    → MemberIn n tag parts members
    → is_member members n ≡ true
unfolding is_member
MemberIn-is_member {n} (here_bare e) = let s = str_eq_refl n in ground arith
MemberIn-is_member {n} (here_member e) = let s = str_eq_refl n in ground arith
MemberIn-is_member (past_bare i) = let ih = MemberIn-is_member i in ground arith
MemberIn-is_member (past_member i) = let ih = MemberIn-is_member i in ground arith

-- Another member in front has another name.
other_name :
    (n m : Bytes) (members : Members)
    → is_member members n ≡ true
    → is_member members m ≡ false
    → str_eq m n ≡ false
other_name n m members h g = elim (Bool-cases (str_eq m n)) [
  | inr s ↦ s
  | inl s ↦
      let g' = subst (λ x. is_member members x ≡ false) (str_eq→eq m n s) g in absurd (ground arith)
]

pub MemberIn-member_tag :
    {n : Bytes} {tag : ℤ} {parts : Option (Bool × (Fields × Option Bytes))} {members : Members}
    → distinct_members members ≡ true
    → MemberIn n tag parts members
    → member_tag members n ≡ some tag
unfolding distinct_members member_tag
MemberIn-member_tag {n} d (here_bare e) = let s = str_eq_refl n in ground arith
MemberIn-member_tag {n} d (here_member e) = let s = str_eq_refl n in ground arith
MemberIn-member_tag {n} d (past_bare {m} {members} i) =
    let ih = MemberIn-member_tag (ground arith) i in
    let o = other_name n m members (MemberIn-is_member i) (ground arith) in ground arith
MemberIn-member_tag {n} d (past_member {m} {members} i) =
    let ih = MemberIn-member_tag (ground arith) i in
    let o = other_name n m members (MemberIn-is_member i) (ground arith) in ground arith

pub MemberIn-member_fields :
    {n : Bytes} {tag : ℤ} {parts : Option (Bool × (Fields × Option Bytes))} {members : Members}
    → distinct_members members ≡ true
    → MemberIn n tag parts members
    → member_fields members n ≡ some parts
unfolding distinct_members member_fields
MemberIn-member_fields {n} d (here_bare e) = let s = str_eq_refl n in ground arith
MemberIn-member_fields {n} d (here_member e) = let s = str_eq_refl n in ground arith
MemberIn-member_fields {n} d (past_bare {m} {members} i) =
    let ih = MemberIn-member_fields (ground arith) i in
    let o = other_name n m members (MemberIn-is_member i) (ground arith) in ground arith
MemberIn-member_fields {n} d (past_member {m} {members} i) =
    let ih = MemberIn-member_fields (ground arith) i in
    let o = other_name n m members (MemberIn-is_member i) (ground arith) in ground arith

-- The field's value, which a test of the field's number is of.
pub fields_hold-FieldAt :
    {n : Bytes} {t : SssType} {fields : Fields} {i : ℕ} (values : Values)
    → fields_hold fields values ≡ true
    → FieldAt n t fields i
    → (v : Value) × (has_type t v ≡ true) × ((f : Test) → values_field i f values ≡ f v)
unfolding fields_hold values_field
fields_hold-FieldAt end_values h here = absurd (ground arith)
fields_hold-FieldAt end_values h (there f) = absurd (ground arith)
fields_hold-FieldAt (value v values) h here = (v, ground arith, λ f. refl)
fields_hold-FieldAt (value v values) h (there f) = fields_hold-FieldAt values (ground arith) f
