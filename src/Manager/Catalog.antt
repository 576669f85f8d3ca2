-- ===== src/Manager/Catalog.antt =====
-- quantra/src/services/manager.rs: the services that are always there, and the catalog.
use Prim.Native.String.{String}
use text.Mathlib.Text.{◌==◌ as str_eq}
use quantra_system.Base.{
  Bool, false, not, ◌&&◌, ◌||◌, Option, none, some, List, [], ◌∷◌, ◌++◌, map, if◌then◌else◌, any,
  find, keep_if,
}
use quantra_system.Base.Assoc.{string_eq, get, insert, map_values}
use quantra_system.Base.Text.{Text, codes, strip_prefix, text_eq}
use quantra_system.Dependency.{Service, blank}

abbrev pub bootstrap_order : List String
bootstrap_order = "quantra-netd" ∷ "quantra-net" ∷ "console-shell" ∷ []

-- The fields that are modelled, of the services that the source writes out.
unfoldable pub builtin_service : String → Service
builtin_service name = record blank {
  name = name;
  after =
      if str_eq name "quantra-net"
      then "quantra-netd" ∷ []
      else if str_eq name "quantra-netd"
      then []
      else "quantra-net" ∷ [];
}

abbrev pub or_else : Option Service → Service → Service
or_else none d = d
or_else (some s) d = s

unfoldable pub service_or_builtin : List Service → String → Service
service_or_builtin services name =
    or_else (find (λ s. str_eq s.name name) services) (builtin_service name)

unfoldable pub bootstrap_services : List Service → List Service
bootstrap_services services = map (service_or_builtin services) bootstrap_order

abbrev pub is_bootstrap : String → Bool
is_bootstrap name = any (λ b. str_eq b name) bootstrap_order

unfoldable pub remaining_services : List Service → List Service
remaining_services services = keep_if (λ s. not (is_bootstrap s.name) && not s.launcher) services

-- Collecting into a map keeps the last service of a name.
unfoldable pub collect : List Service → List (String × Service) → List (String × Service)
collect [] m = m
collect (s ∷ rest) m = collect rest (insert s.name s m)

-- `entry(...).or_insert_with(...)`
abbrev pub or_insert : Option Service → String → List (String × Service) → List (String × Service)
or_insert (some s) name m = m
or_insert none name m = insert name (builtin_service name) m

unfoldable pub add_builtins : List String → List (String × Service) → List (String × Service)
add_builtins [] m = m
add_builtins (b ∷ bs) m = add_builtins bs (or_insert (get b m) b m)

-- The condition on a path or on a variable, in the order of the tests; any other one does not hold.
abbrev pub after_prefixes :
    (exists env : Text → Bool) → Option Text → Option Text → Option Text → Bool
after_prefixes exists env (some path) _ _ = exists path
after_prefixes exists env none (some path) _ = exists path
after_prefixes exists env none none (some var) = env var
after_prefixes exists env none none none = false

unfoldable pub resolve_conditional_dep : (exists env : Text → Bool) → Text → Bool
resolve_conditional_dep exists env condition =
    after_prefixes exists env (strip_prefix (codes "hardware-present:") condition)
      (strip_prefix (codes "file-exists:") condition) (strip_prefix (codes "env-set:") condition)

abbrev pub resolved : (exists env : Text → Bool) → List (String × Text) → List String
resolved exists env [] = []
resolved exists env ((dep, condition) ∷ rest) =
    let more = resolved exists env rest in
    if resolve_conditional_dep exists env condition then dep ∷ more else more

unfoldable pub promote : (exists env : Text → Bool) → Service → Service
promote exists env s = record s {
  dependencies = s.dependencies ++ resolved exists env s.conditional_dependencies;
}

unfoldable pub build_catalog : (exists env : Text → Bool) → List Service → List (String × Service)
build_catalog exists env services =
    map_values (promote exists env) (add_builtins bootstrap_order (collect services []))

abbrev pub listed : String → List String → Bool
listed name names = any (λ d. str_eq d name) names

abbrev pub push_new : String → List String → List String
push_new name names = if listed name names then names else names ++ name ∷ []

-- The kind chooses the list; an unknown one only orders.
unfoldable pub with_dep : String → Text → Service → Service
with_dep to kind s =
    if text_eq kind (codes "need") || text_eq kind (codes "regular")
    then record s { dependencies = push_new to s.dependencies }
    else if text_eq kind (codes "milestone")
    then record s { milestone = push_new to s.milestone }
    else record s { after = push_new to s.after }

abbrev pub without : String → List String → List String
without to names = keep_if (λ d. not (str_eq d to)) names

unfoldable pub without_dep : String → Service → Service
without_dep to s = record s {
  dependencies = without to s.dependencies;
  wants = without to s.wants;
  milestone = without to s.milestone;
  after = without to s.after;
}
