-- ===== src/ConfigServer/CfgKey.antt =====
-- The key of a store, group and key in one string: configure/configserver/server.core.go, cfgKey.
use nekoq_component.Base.{All, [], append_assoc, arith, false, refl, ◌++◌, ◌==◌, ◌∷◌, ◌≡◌}
use nekoq_component.Base.Str.{Str}
use nekoq_component.ConfigServer.{cfg_key}

-- No vertical bar.
abbrev pub NoBar : Str → Type 0
NoBar = All (λ c. (c == 124) ≡ false)

-- Two pairs of a group without a vertical bar and a key have the same cfgKey only if the groups
-- and the keys are equal.
pub cfg_key_injective :
    (group key group' key' : Str)
    → NoBar group
    → NoBar group'
    → cfg_key group key ≡ cfg_key group' key'
    → (group ≡ group') × (key ≡ key')
unfolding cfg_key
cfg_key_injective [] key [] key' h g e = grind arith
cfg_key_injective [] key (d ∷ group') key' h g e = absurd (ground (arith, g.0))
cfg_key_injective (c ∷ group) key [] key' h g e = absurd (ground (arith, h.0))
cfg_key_injective (c ∷ group) key (d ∷ group') key' h g e =
    grind (arith, cfg_key_injective group key group' key' h.1 g.1)

-- A group that ends in two bars and a middle part has, with a key, the same cfgKey as the group
-- without them has with the middle part, two bars and that key.
cfg_key_collides :
    (group middle key : Str)
    → cfg_key (group ++ 124 ∷ 124 ∷ middle) key ≡ cfg_key group (middle ++ 124 ∷ 124 ∷ key)
unfolding cfg_key
cfg_key_collides group middle key = rw (append_assoc) refl
