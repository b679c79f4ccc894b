-- ===== src/Types/Memory/Parts.antt =====
-- `has_heap_memory` and `is_orderable` against the parts of a type, by an inductive relation.
use blangc.Prelude.{ℕ, ◌≡◌, refl, ◌↔◌, ◌⊎◌, inl, inr, Bool, true, false, ◌&&◌, ◌||◌, Option, Bytes}
use blangc.Prelude.Int.{ℤ}
use blangc.Types.Memory.{
  has_heap_memory, fields_heap_memory, members_heap_memory, is_orderable, fields_orderable,
  members_orderable,
}
use blangc.Types.{
  SssType, Fields, Members, array_type, table_type, function_type, pointer_type, generator_type,
  variant_type, struct_type, tagged_union_type, end_fields, field, end_members, bare_member, member,
}

-- `Part p t`: a value of type `t` is made of values of which one has type `p`. The items of arrays,
-- the keys and values of tables, what generators generate, the fields of structs, the fields of tagged
-- unions' members, and the type behind a variant are parts; what a pointer points to is none.
mutual
  pub data Part (p : SssType) : SssType → Type 0 where
    whole : Part p p
    generated : {t : SssType} → Part p t → Part p (generator_type t)
    item : {t : SssType} → Part p t → Part p (array_type t)
    key : {k v : SssType} → Part p k → Part p (table_type k v)
    value : {k v : SssType} → Part p v → Part p (table_type k v)
    of_variant :
        {name filename : Bytes} {t : SssType} → Part p t → Part p (variant_type name filename t)
    of_struct :
        {b : Bool} {fs : Fields} {u : Option Bytes} → FieldPart p fs → Part p (struct_type b fs u)
    of_union : {ms : Members} {n : ℕ} → MemberPart p ms → Part p (tagged_union_type ms n)

  pub data FieldPart (p : SssType) : Fields → Type 0 where
    first_field :
        {n : Option Bytes} {t : SssType} {fs : Fields} → Part p t → FieldPart p (field n t fs)
    next_field :
        {n : Option Bytes} {t : SssType} {fs : Fields} → FieldPart p fs → FieldPart p (field n t fs)

  pub data MemberPart (p : SssType) : Members → Type 0 where
    in_member :
        {n : Bytes} {v : ℤ} {b : Bool} {fs : Fields} {u : Option Bytes} {ms : Members}
        → FieldPart p fs
        → MemberPart p (member n v b fs u ms)
    next_member :
        {n : Bytes} {v : ℤ} {b : Bool} {fs : Fields} {u : Option Bytes} {ms : Members}
        → MemberPart p ms
        → MemberPart p (member n v b fs u ms)
    next_bare :
        {n : Bytes} {v : ℤ} {ms : Members} → MemberPart p ms → MemberPart p (bare_member n v ms)

-- No part of the type is a variant, and if the flag says so no generator either.
unfoldable mutual
  pub is_plain : (generators : Bool) → SssType → Bool
  is_plain generators (variant_type name filename t) = false
  is_plain generators (generator_type t) = generators && is_plain generators t
  is_plain generators (array_type t) = is_plain generators t
  is_plain generators (table_type k v) = is_plain generators k && is_plain generators v
  is_plain generators (struct_type has_names fields units) = plain_fields generators fields
  is_plain generators (tagged_union_type members tag_bits) = plain_members generators members
  is_plain generators _ = true

  pub plain_fields : (generators : Bool) → Fields → Bool
  plain_fields generators end_fields = true
  plain_fields generators (field name t rest) =
      is_plain generators t && plain_fields generators rest

  pub plain_members : (generators : Bool) → Members → Bool
  plain_members generators end_members = true
  plain_members generators (bare_member name v rest) = plain_members generators rest
  plain_members generators (member name v has_names fields units rest) =
      plain_fields generators fields && plain_members generators rest

-- The types whose values are references to the heap.
unfoldable pub is_reference : SssType → Bool
is_reference (array_type t) = true
is_reference (table_type k v) = true
is_reference (pointer_type t is_optional is_stack is_readonly) = true
is_reference _ = false

-- The types whose values have no order.
unfoldable pub is_unordered : SssType → Bool
is_unordered (table_type k v) = true
is_unordered (pointer_type t is_optional is_stack is_readonly) = true
is_unordered (function_type has_names has_defaults args ret) = true
is_unordered _ = false

reference→heap : (t : SssType) → is_reference t ≡ true → has_heap_memory t ≡ true
unfolding is_reference has_heap_memory
reference→heap (array_type t) h = refl
reference→heap (table_type k v) h = refl
reference→heap (pointer_type t is_optional is_stack is_readonly) h = refl
reference→heap _ h = cc

unordered→orderable : (t : SssType) → is_unordered t ≡ true → is_orderable t ≡ false
unfolding is_unordered is_orderable
unordered→orderable (table_type k v) h = refl
unordered→orderable (pointer_type t is_optional is_stack is_readonly) h = refl
unordered→orderable (function_type has_names has_defaults args ret) h = refl
unordered→orderable _ h = cc

or-left : (a b : Bool) → a ≡ true → (a || b) ≡ true
or-left a b h = rw h refl

or-right : (a b : Bool) → b ≡ true → (a || b) ≡ true
or-right true b h = refl
or-right false b h = h

and-left : (a b : Bool) → a ≡ false → (a && b) ≡ false
and-left a b h = rw h refl

and-right : (a b : Bool) → b ≡ false → (a && b) ≡ false
and-right true b h = h
and-right false b h = refl

both : (a b : Bool) → (a && b) ≡ true → (a ≡ true) × (b ≡ true)
both true b h = (refl, h)
both false b h = cc

mutual
  unfolding has_heap_memory is_plain

  part→heap :
      {p t : SssType}
      → is_reference p ≡ true
      → is_plain true t ≡ true
      → Part p t
      → has_heap_memory t ≡ true
  part→heap {p} h c whole = reference→heap p h
  part→heap h c (generated d) = part→heap h c d
  part→heap h c (item d) = refl
  part→heap h c (key d) = refl
  part→heap h c (value d) = refl
  part→heap h c (of_variant d) = cc
  part→heap h c (of_struct d) = field_part→heap h c d
  part→heap h c (of_union d) = member_part→heap h c d

  field_part→heap :
      {p : SssType} {fs : Fields}
      → is_reference p ≡ true
      → plain_fields true fs ≡ true
      → FieldPart p fs
      → fields_heap_memory fs ≡ true
  field_part→heap h c (first_field {t = t} {fs = fs} d) =
      let (a, b) = both (is_plain true t) (plain_fields true fs) c in
      or-left (has_heap_memory t) (fields_heap_memory fs) (part→heap h a d)
  field_part→heap h c (next_field {t = t} {fs = fs} d) =
      let (a, b) = both (is_plain true t) (plain_fields true fs) c in
      or-right (has_heap_memory t) (fields_heap_memory fs) (field_part→heap h b d)

  member_part→heap :
      {p : SssType} {ms : Members}
      → is_reference p ≡ true
      → plain_members true ms ≡ true
      → MemberPart p ms
      → members_heap_memory ms ≡ true
  member_part→heap h c (in_member {fs = fs} {ms = ms} d) =
      let (a, b) = both (plain_fields true fs) (plain_members true ms) c in
      or-left (fields_heap_memory fs) (members_heap_memory ms) (field_part→heap h a d)
  member_part→heap h c (next_member {fs = fs} {ms = ms} d) =
      let (a, b) = both (plain_fields true fs) (plain_members true ms) c in
      or-right (fields_heap_memory fs) (members_heap_memory ms) (member_part→heap h b d)
  member_part→heap h c (next_bare d) = member_part→heap h c d

-- A part that is a reference.
abbrev pub HeapPart : SssType → Type 0
HeapPart t = (p : SssType) × Part p t × (is_reference p ≡ true)

or-cases : (a b : Bool) → (a || b) ≡ true → (a ≡ true) ⊎ (b ≡ true)
or-cases true b h = inl refl
or-cases false b h = inr h

mutual
  unfolding has_heap_memory is_reference

  heap→part : (t : SssType) → has_heap_memory t ≡ true → HeapPart t
  heap→part (array_type t) h = (array_type t, whole, refl)
  heap→part (table_type k v) h = (table_type k v, whole, refl)
  heap→part (pointer_type t o s r) h = (pointer_type t o s r, whole, refl)
  heap→part (generator_type t) h = let (p, d, e) = heap→part t h in (p, generated d, e)
  heap→part (struct_type b fs u) h = let (p, d, e) = heap→field_part fs h in (p, of_struct d, e)
  heap→part (tagged_union_type ms n) h = let (p, d, e) = heap→member_part ms h in (p, of_union d, e)
  heap→part _ h = cc

  heap→field_part :
      (fs : Fields)
      → fields_heap_memory fs ≡ true
      → (p : SssType) × FieldPart p fs × (is_reference p ≡ true)
  heap→field_part end_fields h = cc
  heap→field_part (field n t fs) h = elim (or-cases (has_heap_memory t) (fields_heap_memory fs) h) [
    | inl e ↦ let (p, d, r) = heap→part t e in (p, first_field d, r)
    | inr e ↦ let (p, d, r) = heap→field_part fs e in (p, next_field d, r)
  ]

  heap→member_part :
      (ms : Members)
      → members_heap_memory ms ≡ true
      → (p : SssType) × MemberPart p ms × (is_reference p ≡ true)
  heap→member_part end_members h = cc
  heap→member_part (bare_member n v ms) h =
      let (p, d, r) = heap→member_part ms h in (p, next_bare d, r)
  heap→member_part (member n v b fs u ms) h =
      elim (or-cases (fields_heap_memory fs) (members_heap_memory ms) h) [
        | inl e ↦ let (p, d, r) = heap→field_part fs e in (p, in_member d, r)
        | inr e ↦ let (p, d, r) = heap→member_part ms e in (p, next_member d, r)
      ]

-- For a type without variants, `has_heap_memory` says yes exactly when some part of the type is an
-- array, a table or a pointer.
pub has_heap_memory_iff :
    (t : SssType) → is_plain true t ≡ true → (has_heap_memory t ≡ true) ↔ HeapPart t
has_heap_memory_iff t c = (heap→part t, λ (p, d, e). part→heap e c d)

mutual
  unfolding is_orderable is_plain

  part→unordered :
      {p t : SssType}
      → is_unordered p ≡ true
      → is_plain false t ≡ true
      → Part p t
      → is_orderable t ≡ false
  part→unordered {p} h c whole = unordered→orderable p h
  part→unordered h c (generated d) = cc
  part→unordered h c (item d) = part→unordered h c d
  part→unordered h c (key d) = refl
  part→unordered h c (value d) = refl
  part→unordered h c (of_variant d) = cc
  part→unordered h c (of_struct d) = field_part→unordered h c d
  part→unordered h c (of_union d) = member_part→unordered h c d

  field_part→unordered :
      {p : SssType} {fs : Fields}
      → is_unordered p ≡ true
      → plain_fields false fs ≡ true
      → FieldPart p fs
      → fields_orderable fs ≡ false
  field_part→unordered h c (first_field {t = t} {fs = fs} d) =
      let (a, b) = both (is_plain false t) (plain_fields false fs) c in
      and-left (is_orderable t) (fields_orderable fs) (part→unordered h a d)
  field_part→unordered h c (next_field {t = t} {fs = fs} d) =
      let (a, b) = both (is_plain false t) (plain_fields false fs) c in
      and-right (is_orderable t) (fields_orderable fs) (field_part→unordered h b d)

  member_part→unordered :
      {p : SssType} {ms : Members}
      → is_unordered p ≡ true
      → plain_members false ms ≡ true
      → MemberPart p ms
      → members_orderable ms ≡ false
  member_part→unordered h c (in_member {fs = fs} {ms = ms} d) =
      let (a, b) = both (plain_fields false fs) (plain_members false ms) c in
      and-left (fields_orderable fs) (members_orderable ms) (field_part→unordered h a d)
  member_part→unordered h c (next_member {fs = fs} {ms = ms} d) =
      let (a, b) = both (plain_fields false fs) (plain_members false ms) c in
      and-right (fields_orderable fs) (members_orderable ms) (member_part→unordered h b d)
  member_part→unordered h c (next_bare d) = member_part→unordered h c d

abbrev pub UnorderedPart : SssType → Type 0
UnorderedPart t = (p : SssType) × Part p t × (is_unordered p ≡ true)

and-cases : (a b : Bool) → (a && b) ≡ false → (a ≡ false) ⊎ (b ≡ false)
and-cases true b h = inr h
and-cases false b h = inl refl

mutual
  unfolding is_orderable is_unordered

  unordered→part : (t : SssType) → is_orderable t ≡ false → UnorderedPart t
  unordered→part (array_type t) h = let (p, d, e) = unordered→part t h in (p, item d, e)
  unordered→part (table_type k v) h = (table_type k v, whole, refl)
  unordered→part (pointer_type t o s r) h = (pointer_type t o s r, whole, refl)
  unordered→part (function_type n d a r) h = (function_type n d a r, whole, refl)
  unordered→part (struct_type b fs u) h =
      let (p, d, e) = unordered→field_part fs h in (p, of_struct d, e)
  unordered→part (tagged_union_type ms n) h =
      let (p, d, e) = unordered→member_part ms h in (p, of_union d, e)
  unordered→part _ h = cc

  unordered→field_part :
      (fs : Fields)
      → fields_orderable fs ≡ false
      → (p : SssType) × FieldPart p fs × (is_unordered p ≡ true)
  unordered→field_part end_fields h = cc
  unordered→field_part (field n t fs) h =
      elim (and-cases (is_orderable t) (fields_orderable fs) h) [
        | inl e ↦ let (p, d, r) = unordered→part t e in (p, first_field d, r)
        | inr e ↦ let (p, d, r) = unordered→field_part fs e in (p, next_field d, r)
      ]

  unordered→member_part :
      (ms : Members)
      → members_orderable ms ≡ false
      → (p : SssType) × MemberPart p ms × (is_unordered p ≡ true)
  unordered→member_part end_members h = cc
  unordered→member_part (bare_member n v ms) h =
      let (p, d, r) = unordered→member_part ms h in (p, next_bare d, r)
  unordered→member_part (member n v b fs u ms) h =
      elim (and-cases (fields_orderable fs) (members_orderable ms) h) [
        | inl e ↦ let (p, d, r) = unordered→field_part fs e in (p, in_member d, r)
        | inr e ↦ let (p, d, r) = unordered→member_part ms e in (p, next_member d, r)
      ]

-- For a type without variants and generators, `is_orderable` says no exactly when some part of the type
-- is a pointer, a function or a table.
pub is_orderable_iff :
    (t : SssType) → is_plain false t ≡ true → (is_orderable t ≡ false) ↔ UnorderedPart t
is_orderable_iff t c = (unordered→part t, λ (p, d, e). part→unordered e c d)
