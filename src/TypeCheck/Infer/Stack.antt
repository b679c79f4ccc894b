-- ===== src/TypeCheck/Infer/Stack.antt =====
-- Values that outlive a stack frame, and references into it.
use blangc.Prelude.{
  ◌≡◌, refl, subst, Bool, true, false, ◌||◌, Bool-cases, inl, inr, Option, none, some, arith,
}
use blangc.TypeCheck.Infer.{
  get_type, items_type, entries_type, maybe_type, parse_type_ast, lambda_args, def_args, bind_typed,
  maybe_parsed, struct_fields,
}
use blangc.TypeCheck.Nodes.{bind_args}
use blangc.TypeCheck.Rules.{no_stack, heap_pointer, array_of, table_of}
use blangc.TypeCheck.Syntax.{
  Ast, array_of_type, array_, table_of_types, table_, heap_allocate, struct_, lambda, function_def,
  nothing, Asts, end, cons, keyword_arg,
}
use blangc.TypeCheck.{
  Checked, ok, compiler_err, fault, outside, ◌>>=◌, ◌>>◌, or_fault, Env, file_scope, derive,
}
use blangc.Types.Memory.{has_stack_memory}
use blangc.Types.{
  SssType, Fields, array_type, table_type, function_type, pointer_type, generator_type, struct_type,
  end_fields, field,
}

-- The types of values that lie on the stack: pointers to it, and what generates such pointers.
pub data StackReference : SssType → Type 0 where
  to_stack :
      {t : SssType} {is_optional is_readonly : Bool}
      → StackReference (pointer_type t is_optional true is_readonly)
  generated : {t : SssType} → StackReference t → StackReference (generator_type t)

seen : {t : SssType} → StackReference t → has_stack_memory t ≡ true
unfolding has_stack_memory
seen to_stack = refl
seen (generated d) = seen d

off : (t : SssType) → has_stack_memory t ≡ false → ¬ StackReference t
off t h d = let e = seen d in cc

-- A type of which neither the items of an array, the keys and values of a table, the target of a
-- pointer, the fields of a struct nor the result of a function are of such a type, and which is none
-- itself.
unfoldable FieldsOffStack : Fields → Type 0
FieldsOffStack end_fields = Unit
FieldsOffStack (field name t fields) = (¬ StackReference t) × FieldsOffStack fields

unfoldable pub OffStack : SssType → Type 0
unfolding FieldsOffStack
OffStack (array_type t) = ¬ StackReference t
OffStack (table_type k v) = (¬ StackReference k) × (¬ StackReference v)
OffStack (pointer_type t is_optional is_stack is_readonly) =
    (is_stack ≡ false) × (¬ StackReference t)
OffStack (struct_type has_names fields units) = FieldsOffStack fields
OffStack (function_type has_names has_defaults args ret) = ¬ StackReference ret
OffStack t = ⊥

-- Array and table literals, allocations on the heap, struct literals without a name, and functions.
unfoldable pub is_lasting : Ast → Bool
is_lasting (array_of_type a) = true
is_lasting (array_ items) = true
is_lasting (table_of_types k v) = true
is_lasting (table_ default entries) = true
is_lasting (heap_allocate a) = true
is_lasting (struct_ nothing args units) = true
is_lasting (lambda params body) = true
is_lasting (function_def params ret) = true
is_lasting a = false

-- What a check gives if it gives a result.
abbrev Gives : {A : Type 0} → (A → Type 0) → Checked A → Type 0
Gives f m = (a : _) → m ≡ ok a → f a

Gives-bind :
    {A B : Type 0} (f : B → Type 0) (m : Checked A) (k : A → Checked B)
    → ((a : A) → m ≡ ok a → Gives f (k a))
    → Gives f (m >>= k)
Gives-bind f (ok a) k h b e = h a refl b e
Gives-bind f compiler_err k h b e = absurd (ground arith)
Gives-bind f fault k h b e = absurd (ground arith)
Gives-bind f outside k h b e = absurd (ground arith)

Gives-ok : {A : Type 0} (f : A → Type 0) (a : A) → f a → Gives f (ok a)
Gives-ok f a h b e = let g : a ≡ b = ground arith in subst f g h

Gives-no_stack :
    {A : Type 0} (f : A → Type 0) (t : SssType) (m : Checked A)
    → (¬ StackReference t → Gives f m)
    → Gives f (no_stack t >> m)
unfolding no_stack
Gives-no_stack f t m h b e = elim (Bool-cases (has_stack_memory t)) [
  | inl s ↦ absurd (ground arith)
  | inr s ↦ h (off t s) b (ground arith)
]

array_of-off : (o : Option SssType) → Gives OffStack (array_of o)
unfolding array_of OffStack
array_of-off none = λ a e. absurd (ground arith)
array_of-off (some t) =
    Gives-no_stack OffStack t (ok (array_type t)) (λ s. Gives-ok OffStack (array_type t) s)

table_of-off : (k v : Option SssType) → Gives OffStack (table_of k v)
unfolding table_of OffStack
table_of-off (some k) (some v) t e = elim (Bool-cases (has_stack_memory k || has_stack_memory v)) [
  | inl s ↦ absurd (ground arith)
  | inr s ↦
      let tables : table_type k v ≡ t = ground arith in
      subst OffStack tables (off k (ground (arith, s)), off v (ground (arith, s)))
]
table_of-off none v t e = absurd (ground arith)
table_of-off (some k) none t e = absurd (ground arith)

struct_fields-off : (env : Env) (args : Asts) → Gives FieldsOffStack (struct_fields env args)
unfolding struct_fields FieldsOffStack
struct_fields-off env end = Gives-ok FieldsOffStack end_fields tt
struct_fields-off env (cons (keyword_arg name a) args) =
    Gives-bind FieldsOffStack (get_type env a) _ (λ t _. Gives-no_stack FieldsOffStack t _ (λ s.
      Gives-bind FieldsOffStack (struct_fields env args) _ (λ fields e.
        let ih = struct_fields-off env args fields e in
        Gives-ok FieldsOffStack (field name t fields) (s, ih))))
struct_fields-off env (cons _ args) = λ fields e. absurd (ground arith)

-- Where `get_type` gives a type for an array or table literal, an allocation on the heap, a struct
-- literal without a name or a function, this is not the type of a pointer to the stack, and neither are
-- the types of its items, keys and values, its target, its fields or its result.
pub get_type-OffStack :
    (env : Env) (a : Ast) (t : SssType) → is_lasting a ≡ true → get_type env a ≡ ok t → OffStack t
unfolding is_lasting get_type heap_pointer OffStack
get_type-OffStack env (array_of_type a) t l =
    Gives-bind OffStack (parse_type_ast env a) _ (λ o _. array_of-off o) t
get_type-OffStack env (array_ items) t l =
    Gives-bind OffStack (items_type env none items) _ (λ o _. array_of-off o) t
get_type-OffStack env (table_of_types k v) t l =
    Gives-bind OffStack (parse_type_ast env k) _
      (λ key _. Gives-bind OffStack (parse_type_ast env v) _ (λ value _. table_of-off key value)) t
get_type-OffStack env (table_ default entries) t l =
    Gives-bind OffStack (maybe_type env default) _
      (λ value _.
        Gives-bind OffStack (entries_type env none value entries) _
          (λ r _. table_of-off (r.0) (r.1)))
      t
get_type-OffStack env (heap_allocate a) t l =
    Gives-bind OffStack (get_type env a) _
      (λ u _.
        Gives-no_stack OffStack u _
          (λ s. Gives-ok OffStack (pointer_type u false false false) (refl, s)))
      t
get_type-OffStack env (struct_ nothing args units) t l =
    Gives-bind OffStack (struct_fields env args) _
      (λ fields e. Gives-bind OffStack (derive env units) _ (λ derived _.
        Gives-ok OffStack (struct_type true fields derived) (struct_fields-off env args fields e)))
      t
get_type-OffStack env (lambda params body) t l =
    Gives-bind OffStack (lambda_args env params) _
      (λ args _. Gives-bind OffStack (bind_args (file_scope env) args) _ (λ body_env _.
        Gives-bind OffStack (get_type body_env body) _ (λ ret_t _.
          Gives-no_stack OffStack ret_t _
            (λ s. Gives-ok OffStack (function_type true false args ret_t) s))))
      t
get_type-OffStack env (function_def params ret) t l =
    Gives-bind OffStack (bind_typed env (file_scope env) params) _
      (λ default_env _. Gives-bind OffStack (def_args env default_env params) _ (λ args _.
        Gives-bind OffStack (maybe_parsed env ret) _ (λ of _.
          Gives-bind OffStack (or_fault of) _ (λ ret_t _.
            Gives-no_stack OffStack ret_t _
              (λ s. Gives-ok OffStack (function_type true true args ret_t) s)))))
      t
get_type-OffStack env _ t l = absurd (ground arith)
