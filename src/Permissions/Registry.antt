-- ===== src/Permissions/Registry.antt =====
-- The table of the secret service's permissions: configure/permissions/secret.go.
use nekoq_component.Base.{All, List, Option, [], arith, refl, some, ◌∷◌, ◌≡◌}
use nekoq_component.Base.Str.{Str, bytes, str_eq_iff}
use nekoq_component.Base.Map.{Map, insert, lookup, lookup-insert, nat_eq, str_key}
use nekoq_component.Permissions.{PermissionDef, to_string}

-- The definitions in the order in which init adds them.
abbrev pub secret_permissions : List PermissionDef
secret_permissions =
    record { name = bytes "cert.admin"; operation = bytes "manage:" }
    ∷ record { name = bytes "cert.list"; operation = bytes "read:" }
    ∷ record { name = bytes "jwt.admin"; operation = bytes "manage:" }
    ∷ record { name = bytes "jwt.new"; operation = bytes "write:" }
    ∷ record { name = bytes "jwt.verify"; operation = bytes "read:" }
    ∷ record { name = bytes "key.admin"; operation = bytes "manage:" }
    ∷ []

unfoldable pub add_permission_def_map :
    PermissionDef → Map Str PermissionDef → Map Str PermissionDef
add_permission_def_map p m = insert (to_string p) p m

unfoldable pub add_all : List PermissionDef → Map Str PermissionDef → Map Str PermissionDef
add_all [] m = m
add_all (p ∷ ps) m = add_all ps (add_permission_def_map p m)

unfoldable pub all_permissions : Map Str PermissionDef
all_permissions = add_all secret_permissions []

unfoldable pub get_permission_def : Str → Option PermissionDef
get_permission_def s = lookup s all_permissions

abbrev IsNamed : Map Str PermissionDef → Type 0
IsNamed m = (s : Str) (p : PermissionDef) → lookup s m ≡ some p → to_string p ≡ s

add_all_keep :
    (ps : List PermissionDef) (m : Map Str PermissionDef) → IsNamed m → IsNamed (add_all ps m)
unfolding add_all add_permission_def_map
add_all_keep [] m h = h
add_all_keep (q ∷ ps) m h =
    add_all_keep ps (insert (to_string q) q m)
      (λ s p e. grind (arith, lookup-insert (to_string q) s q m, h s p, str_eq_iff (to_string q) s))

found_named : (s : Str) (p : PermissionDef) → get_permission_def s ≡ some p → to_string p ≡ s
unfolding get_permission_def all_permissions lookup
found_named s p e = add_all_keep secret_permissions [] (λ t q g. absurd (cc)) s p e

-- A definition that GetPermissionDef finds under a string has that string, and each of the six
-- definitions is found under its own.
pub get_permission_def-to_string :
    (s : Str) (p : PermissionDef)
    → get_permission_def s ≡ some p
    → (to_string p ≡ s) × All (λ q. get_permission_def (to_string q) ≡ some q) secret_permissions
unfolding get_permission_def all_permissions add_all add_permission_def_map to_string insert lookup
get_permission_def-to_string s p e =
    (found_named s p e, (refl, (refl, (refl, (refl, (refl, (refl, tt)))))))
