-- ===== src/Server/Roles/Laws.antt =====
-- config.rs, `is_tool_allowed_for_role`: what the table of the server's own tools says.
use at_pc.Common.{Str, ◌≡◌, refl, true, Option, none, some, arith, str_eq}
use at_pc.Protocol.{Role, viewer, operator, admin, role_le}
use at_pc.Protocol.Tools.{agent_tool}
use at_pc.Server.Roles.{meta_role, has_role, required, is_tool_allowed_for_role}

pub role_le_trans : (a b c : Role) → role_le a b ≡ true → role_le b c ≡ true → role_le a c ≡ true
unfolding role_le
role_le_trans a b c p q = ground (arith, p, q)

pub le_admin : (a : Role) → role_le a admin ≡ true
unfolding role_le
le_admin viewer = refl
le_admin operator = refl
le_admin admin = refl

has_role_mono :
    (a b : Role) (o : Option Role) → role_le a b ≡ true → has_role a o ≡ true → has_role b o ≡ true
has_role_mono a b none p q = q
has_role_mono a b (some c) p q = role_le_trans c a b q p

pub allowed_mono :
    (a b : Role) (name : Str)
    → role_le a b ≡ true
    → is_tool_allowed_for_role a name ≡ true
    → is_tool_allowed_for_role b name ≡ true
unfolding is_tool_allowed_for_role
allowed_mono a b name p q = has_role_mono a b (required (agent_tool name) (meta_role name)) p q
