-- ===== src/Server/Gateway/Access.antt =====
-- Which requests need no credential (mcp/mod.rs, `is_auth_exempt`), which role a path asks for
-- (config.rs, `handler_min_role`), and the credentials of the configuration file (config.rs,
-- `has_credentials`, `get_role_for_token`).
use at_pc.Common.{
  Str, ascii, Bool, true, false, not, ◌&&◌, ◌||◌, Option, none, some, List, [], ◌∷◌, ◌==◌, str_eq,
  trim, is_empty, split, starts_with, ends_with, to_ascii_uppercase, if◌then◌else◌,
}
use at_pc.Map
use at_pc.Map.{Map}
use at_pc.Protocol.{Role, viewer, operator, admin}

unfoldable pub is_auth_exempt : Str → Str → Bool → Bool
is_auth_exempt path method peer_loopback =
    ((path == ascii "/api/auth/login") && (method == ascii "POST"))
    || (method == ascii "OPTIONS")
    || ((path == ascii "/") || (path == ascii "/dashboard") || (path == ascii "/index.html"))
    || ((path == ascii "/health") && peer_loopback)
    || (ends_with (ascii "/desktop/ws") path && (method == ascii "GET"))

-- `path.split('?').next().unwrap_or(path)`
abbrev first_or : Str → List Str → Str
first_or path [] = path
first_or path (p ∷ ps) = p

abbrev of_terminal : Str → Str → Bool
of_terminal suffix path = starts_with (ascii "/api/terminals/") path && ends_with suffix path

-- The tests of `handler_min_role` in their order, of the path without its query and the method in
-- upper case.
unfoldable pub min_role : Str → Str → Option Role
min_role path method =
    let get = method == ascii "GET" in
    let post = method == ascii "POST" in
    if (path == ascii "/api/logs") && get
    then some admin
    else if path == ascii "/api/keys"
    then some admin
    else if starts_with (ascii "/api/keys/") path
    then some admin
    else if (path == ascii "/api/auth/me") && get
    then some viewer
    else if (path == ascii "/api/terminals") && get
    then some viewer
    else if post && of_terminal (ascii "/meta") path
    then some operator
    else if (path == ascii "/api/calls") && get
    then some viewer
    else if get && of_terminal (ascii "/calls") path
    then some viewer
    else if post
        && (starts_with (ascii "/api/terminals/") path
            && (ends_with (ascii "/desktop/start") path
                || ends_with (ascii "/desktop/stream") path))
    then some operator
    else if post && of_terminal (ascii "/desktop/stop") path
    then some operator
    else if get
        && (starts_with (ascii "/api/terminals/") path
            && (ends_with (ascii "/desktop/frame") path
                || ends_with (ascii "/desktop/frame.jpg") path))
    then some viewer
    else if get && of_terminal (ascii "/desktop/raw") path
    then some viewer
    else if post && of_terminal (ascii "/desktop/ticket") path
    then some viewer
    else none

unfoldable pub handler_min_role : Str → Str → Option Role
unfolding min_role
handler_min_role path method =
    min_role (first_or path (split b'?' path)) (to_ascii_uppercase method)

-- The fields of `ServerConfig` that authentication reads.
pub record ServerConfig : Type 0 where
  pub auth_token : Option Str
  pub roles : Map Str Role
  pub insecure_no_auth : Bool

abbrev has_primary : Option Str → Bool
has_primary none = false
has_primary (some t) = not (is_empty (trim t))

abbrev is_empty_map : Map Str Role → Bool
is_empty_map [] = true
is_empty_map (e ∷ es) = false

unfoldable pub has_credentials : ServerConfig → Bool
has_credentials config = has_primary config.auth_token || not (is_empty_map config.roles)

abbrev is_primary : Option Str → Str → Bool
is_primary none clean = false
is_primary (some primary) clean = not (is_empty primary) && primary == clean

abbrev is_open : ServerConfig → Bool
is_open config = elim config.auth_token [ none ↦ is_empty_map config.roles | some _ ↦ false ]

-- The second and the third test of `get_role_for_token`.
abbrev primary_role : ServerConfig → Str → Option Role
primary_role config clean =
    if is_primary config.auth_token clean
    then some admin
    else if is_open config
    then some admin
    else none

abbrev role_or : Option Role → Option Role → Option Role
role_or none next = next
role_or (some r) next = some r

unfoldable pub get_role_for_token : ServerConfig → Str → Option Role
get_role_for_token config token =
    let clean = trim token in
    if is_empty clean
    then none
    else role_or (Map.get clean config.roles) (primary_role config clean)
