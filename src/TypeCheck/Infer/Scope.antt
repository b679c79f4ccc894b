-- ===== src/TypeCheck/Infer/Scope.antt =====
-- The scope of a function's body in `get_type`.
use blangc.Prelude.{◌≡◌, refl, sym, ap, ◌∙◌, true, false, Bytes}
use blangc.TypeCheck.Infer.{get_type, lambda_args}
use blangc.TypeCheck.Nodes.{bind_args}
use blangc.TypeCheck.Rules.{no_stack}
use blangc.TypeCheck.Syntax.{Ast, Params, end_params, lambda}
use blangc.TypeCheck.{Checked, ok, ◌>>=◌, ◌>>◌, Env, visible, file_scope, bind}
use blangc.Types.{SssType, Args, function_type}

-- The body of a lambda is checked with the bindings that `file_scope` leaves.
lambda_type : Env → Ast → Checked Args → Checked SssType
lambda_type scope body params = params >>= λ args. bind_args scope args >>= λ body_env.
    get_type body_env body >>= λ ret_t. no_stack ret_t >> ok (function_type true false args ret_t)

get_type-lambda :
    (env : Env) (params : Params) (body : Ast)
    → get_type env (lambda params body) ≡ lambda_type (file_scope env) body (lambda_args env params)
unfolding get_type lambda_type
get_type-lambda env params body = refl

-- A lambda has the same type, or is refused alike, in two environments of which `file_scope` leaves
-- the same and in which its parameters have the same types.
lambda-file_scope :
    (env env' : Env) (params : Params) (body : Ast)
    → file_scope env ≡ file_scope env'
    → lambda_args env params ≡ lambda_args env' params
    → get_type env (lambda params body) ≡ get_type env' (lambda params body)
lambda-file_scope env env' params body s p =
    get_type-lambda env params body
    ∙ (ap (λ e. lambda_type e body (lambda_args env params)) s
        ∙ (ap (lambda_type (file_scope env') body) p ∙ sym (get_type-lambda env' params body)))

-- A binding that is not global, which is what declarations in a block, loops and patterns make,
-- changes nothing for a lambda without parameters: not whether it has a type, nor which.
lambda-bind :
    (env : Env) (name : Bytes) (t : SssType) (body : Ast)
    → get_type (bind env name t false) (lambda end_params body)
      ≡ get_type env (lambda end_params body)
unfolding lambda_args file_scope bind visible
lambda-bind env name t body =
    lambda-file_scope (bind env name t false) env end_params body refl refl
