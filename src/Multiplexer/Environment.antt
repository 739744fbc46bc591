-- ===== src/Multiplexer/Environment.antt =====
-- The environment that a worker is started with.
use lc_extension.Base.{
  String, ◌==◌, ◌≡◌, refl, ap, ◌∙◌, List, [], ◌∷◌, ◌++◌, map, Option, none, some, suc, length,
  length-append, arith, eq_iff, if◌then◌else◌,
}
use lc_extension.Multiplexer.{EnvVar}
use lc_extension.Multiplexer.Worker.{split_var, env_var, env_slot, static_env, worker_env}

-- The values of a variable, in the order of its slots; a nil slot has none.
abbrev pub values_of : String → List (Option EnvVar) → List String
values_of name [] = []
values_of name (none ∷ slots) = values_of name slots
values_of name (some v ∷ slots) =
    let rest = values_of name slots in if v.name == name then v.value ∷ rest else rest

-- The same of the texts in the definition
abbrev pub listed : String → Option (String × String) → List String → List String
listed name none rest = rest
listed name (some (n, value)) rest = if n == name then value ∷ rest else rest

abbrev pub static_values : String → List String → List String
static_values name [] = []
static_values name (env_str ∷ env) = listed name (split_var env_str) (static_values name env)

values_of-append :
    (name : String) (xs ys : List (Option EnvVar))
    → values_of name (xs ++ ys) ≡ values_of name xs ++ values_of name ys
values_of-append name [] ys = refl
values_of-append name (none ∷ xs) ys = values_of-append name xs ys
values_of-append name (some v ∷ xs) ys = ground (arith, values_of-append name xs ys)

-- The new secret stands in the place of every value of LC_SHARED_SECRET.
abbrev pub replaced : String → String → List String → List String
replaced new_secret name values =
    if name == "LC_SHARED_SECRET" then map (λ _. new_secret) values else values

values_of-slot :
    (new_secret name : String) (parts : Option (String × String)) (slots : List (Option EnvVar))
    (values : List String)
    → values_of name slots ≡ replaced new_secret name values
    → values_of name ((elim parts [ none ↦ none | some p ↦ some (env_var new_secret p) ]) ∷ slots)
      ≡ replaced new_secret name (listed name parts values)
unfolding env_var
values_of-slot new_secret name none slots values h = h
values_of-slot new_secret name (some (n, value)) slots values h =
    ground (arith, eq_iff n name, eq_iff n "LC_SHARED_SECRET", eq_iff name "LC_SHARED_SECRET")

values_of-static_env :
    (new_secret name : String) (env : List String)
    → values_of name (static_env new_secret env) ≡ replaced new_secret name (static_values name env)
unfolding static_env env_slot
values_of-static_env new_secret name [] = ground arith
values_of-static_env new_secret name (env_str ∷ env) =
    values_of-slot new_secret name (split_var env_str) (static_env new_secret env)
      (static_values name env) (values_of-static_env new_secret name env)

length-static_env :
    (new_secret : String) (env : List String) → length (static_env new_secret env) ≡ length env
unfolding static_env
length-static_env new_secret [] = refl
length-static_env new_secret (env_str ∷ env) = ap suc (length-static_env new_secret env)

-- A worker's environment has one slot more than the definition. Every value of LC_SHARED_SECRET in
-- it is the new secret; FROM_LC_OID has the OID behind its values in the definition; and any other
-- variable has just its values in the definition.
pub worker_env_lem :
    (oid new_secret name : String) (env : List String)
    → (length (worker_env oid new_secret env) ≡ suc (length env))
      × (values_of name (worker_env oid new_secret env)
          ≡ replaced new_secret name (static_values name env)
            ++ (if "FROM_LC_OID" == name then oid ∷ [] else []))
unfolding worker_env
worker_env_lem oid new_secret name env = (
  length-append (static_env new_secret env) _ ∙ ground (arith, length-static_env new_secret env),
  values_of-append name (static_env new_secret env) _
      ∙ ap (λ (t : List String). t ++ (if "FROM_LC_OID" == name then oid ∷ [] else []))
          (values_of-static_env new_secret name env),
)
