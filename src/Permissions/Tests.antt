-- ===== src/Permissions/Tests.antt =====
-- Runs of the permissions' definitions.
use nekoq_component.Base.{[], refl, some, ◌&&◌, ◌∷◌, ◌≡◌}
use nekoq_component.Base.Str.{bytes}
use nekoq_component.Base.Map.{insert, lookup, nat_eq, str_key}
use nekoq_component.Permissions.{
  JwtData, PermissionDef, PermissionResourceList, all_permission_operator, any_list,
  dedup_permissions, permissions_claim, set_keys, text, to_string, verify_permissions,
}
use nekoq_component.Permissions.Verify.{all_held, any_held, texts, verify_permissions_all}
use nekoq_component.Permissions.Registry.{
  add_all, add_permission_def_map, all_permissions, get_permission_def,
}

abbrev allowed : PermissionResourceList
allowed = (bytes "jwt.new", bytes "write:") ∷ (bytes "cert.list", bytes "read:") ∷ []

abbrev claims : JwtData
claims =
    (bytes "permissions", any_list (text (bytes "read:cert.list") ∷ text (bytes "x") ∷ [])) ∷ []

claims_hold :
    lookup permissions_claim claims
    ≡ some (any_list (texts (bytes "read:cert.list" ∷ bytes "x" ∷ [])))
unfolding lookup texts
claims_hold = refl

verify_permissions_all_example :
    verify_permissions claims allowed all_permission_operator
    ≡ some (
        any_held (set_keys (dedup_permissions allowed)) (bytes "read:cert.list" ∷ bytes "x" ∷ [])
        && all_held
            (set_keys (dedup_permissions allowed))
            (bytes "read:cert.list" ∷ bytes "x" ∷ []))
verify_permissions_all_example =
    verify_permissions_all claims allowed (bytes "read:cert.list" ∷ bytes "x" ∷ []) claims_hold

abbrev key_admin : PermissionDef
key_admin = record { name = bytes "key.admin"; operation = bytes "manage:" }

key_admin_found : get_permission_def (bytes "manage:key.admin") ≡ some key_admin
unfolding get_permission_def all_permissions add_all add_permission_def_map to_string insert lookup
key_admin_found = refl
