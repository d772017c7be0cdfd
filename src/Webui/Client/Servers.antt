-- ===== src/Webui/Client/Servers.antt =====
-- server/webui/src/api/client.ts: the administration of WireGuard servers and of who reaches what,
-- the journals and the traffic. An object that a caller builds is the JSON of it.
use pro_identity_access.Base.{String, Option, none, some, List, [], ◌∷◌, Dict}
use pro_identity_access.Async.{Async}
use pro_identity_access.Webui.Client.{
  Json, object, text, nil, member, Param, Web, State, request, set_params, query, path, strings,
}

module _ {W : Type 0} (web : Web W) where
  abbrev admin_list_servers : Async (State W) Json
  admin_list_servers = request web "GET" "/admin/servers" none

  abbrev admin_create_server : (body : Json) → Async (State W) Json
  admin_create_server body = request web "POST" "/admin/servers" (some body)

  abbrev admin_update_server : (id : String) (body : Json) → Async (State W) Json
  admin_update_server id body = request web "PUT" (path ("/admin/servers/" ∷ id ∷ [])) (some body)

  abbrev admin_delete_server : (id : String) → Async (State W) Json
  admin_delete_server id = request web "DELETE" (path ("/admin/servers/" ∷ id ∷ [])) none

  abbrev admin_server_groups : (id : String) → Async (State W) Json
  admin_server_groups id = request web "GET" (path ("/admin/servers/" ∷ id ∷ "/groups" ∷ [])) none

  abbrev admin_add_server_group : (server_id : String) (group_id : String) → Async (State W) Json
  admin_add_server_group server_id group_id =
      request web "POST" (path ("/admin/servers/" ∷ server_id ∷ "/groups" ∷ []))
        (some (object (member "group_id" (text group_id) nil)))

  abbrev admin_remove_server_group : (server_id : String) (group_id : String) → Async (State W) Json
  admin_remove_server_group server_id group_id =
      request web "DELETE" (path ("/admin/servers/" ∷ server_id ∷ "/groups/" ∷ group_id ∷ [])) none

  abbrev admin_server_users : (id : String) → Async (State W) Json
  admin_server_users id = request web "GET" (path ("/admin/servers/" ∷ id ∷ "/users" ∷ [])) none

  abbrev admin_add_server_user : (server_id : String) (user_id : String) → Async (State W) Json
  admin_add_server_user server_id user_id =
      request web "POST" (path ("/admin/servers/" ∷ server_id ∷ "/users" ∷ []))
        (some (object (member "user_id" (text user_id) nil)))

  abbrev admin_remove_server_user : (server_id : String) (user_id : String) → Async (State W) Json
  admin_remove_server_user server_id user_id =
      request web "DELETE" (path ("/admin/servers/" ∷ server_id ∷ "/users/" ∷ user_id ∷ [])) none

  abbrev admin_server_bundles : (id : String) → Async (State W) Json
  admin_server_bundles id = request web "GET" (path ("/admin/servers/" ∷ id ∷ "/bundles" ∷ [])) none

  abbrev admin_add_server_bundle : (server_id : String) (bundle_id : String) → Async (State W) Json
  admin_add_server_bundle server_id bundle_id =
      request web "POST" (path ("/admin/servers/" ∷ server_id ∷ "/bundles" ∷ []))
        (some (object (member "bundle_id" (text bundle_id) nil)))

  abbrev admin_remove_server_bundle :
      (server_id : String) (bundle_id : String) → Async (State W) Json
  admin_remove_server_bundle server_id bundle_id =
      request web "DELETE" (path ("/admin/servers/" ∷ server_id ∷ "/bundles/" ∷ bundle_id ∷ []))
        none

  abbrev admin_bundle_servers : (id : String) → Async (State W) Json
  admin_bundle_servers id =
      request web "GET" (path ("/admin/resource-groups/" ∷ id ∷ "/servers" ∷ [])) none

  abbrev admin_attach_bundle_server :
      (bundle_id : String) (server_id : String) → Async (State W) Json
  admin_attach_bundle_server bundle_id server_id =
      request web "POST" (path ("/admin/resource-groups/" ∷ bundle_id ∷ "/servers" ∷ []))
        (some (object (member "server_id" (text server_id) nil)))

  abbrev admin_detach_bundle_server :
      (bundle_id : String) (server_id : String) → Async (State W) Json
  admin_detach_bundle_server bundle_id server_id =
      request web "DELETE"
        (path ("/admin/resource-groups/" ∷ bundle_id ∷ "/servers/" ∷ server_id ∷ [])) none

  abbrev admin_user_servers : (id : String) → Async (State W) Json
  admin_user_servers id = request web "GET" (path ("/admin/users/" ∷ id ∷ "/servers" ∷ [])) none

  abbrev admin_add_user_server : (user_id : String) (server_id : String) → Async (State W) Json
  admin_add_user_server user_id server_id =
      request web "POST" (path ("/admin/users/" ∷ user_id ∷ "/servers" ∷ []))
        (some (object (member "server_id" (text server_id) nil)))

  abbrev admin_remove_user_server : (user_id : String) (server_id : String) → Async (State W) Json
  admin_remove_user_server user_id server_id =
      request web "DELETE" (path ("/admin/users/" ∷ user_id ∷ "/servers/" ∷ server_id ∷ [])) none

  abbrev admin_user_bundles : (user_id : String) (server_id : String) → Async (State W) Json
  admin_user_bundles user_id server_id =
      request web "GET"
        (path ("/admin/users/" ∷ user_id ∷ "/servers/" ∷ server_id ∷ "/bundles" ∷ [])) none

  abbrev admin_add_user_bundle :
      (user_id : String) (server_id : String) (bundle_id : String) → Async (State W) Json
  admin_add_user_bundle user_id server_id bundle_id =
      request web "POST"
        (path ("/admin/users/" ∷ user_id ∷ "/servers/" ∷ server_id ∷ "/bundles" ∷ []))
        (some (object (member "bundle_id" (text bundle_id) nil)))

  abbrev admin_remove_user_bundle :
      (user_id : String) (server_id : String) (bundle_id : String) → Async (State W) Json
  admin_remove_user_bundle user_id server_id bundle_id =
      request web "DELETE"
        (path ("/admin/users/" ∷ user_id ∷ "/servers/" ∷ server_id ∷ "/bundles/" ∷ bundle_id ∷ []))
        none

  abbrev perm_catalog : Async (State W) Json
  perm_catalog = request web "GET" "/auth/permissions" none

  abbrev update_role_permissions :
      (role_id : String) (permissions : List String) → Async (State W) Json
  update_role_permissions role_id permissions =
      request web "PUT" (path ("/admin/groups/" ∷ role_id ∷ "/permissions" ∷ []))
        (some (object (member "permissions" (strings permissions) nil)))

  abbrev admin_diagnostics : Async (State W) Json
  admin_diagnostics = request web "GET" "/admin/diagnostics" none

  abbrev user_reach : (id : String) → Async (State W) Json
  user_reach id = request web "GET" (path ("/admin/users/" ∷ id ∷ "/reach" ∷ [])) none

  abbrev admin_audit : (params : Dict (Option Param)) → Async (State W) Json
  admin_audit params = request web "GET" (path ("/admin/audit" ∷ query web params ∷ [])) none

  abbrev admin_denials : (params : Dict (Option Param)) → Async (State W) Json
  admin_denials params = request web "GET" (path ("/admin/denials" ∷ query web params ∷ [])) none

  abbrev traffic_top : (params : Dict (Option Param)) → Async (State W) Json
  traffic_top params =
      request web "GET" (path ("/admin/traffic/top?" ∷ web.query_text (set_params params []) ∷ []))
        none

  abbrev traffic_summary : (params : Dict (Option Param)) → Async (State W) Json
  traffic_summary params =
      request web "GET" (path ("/admin/traffic/summary" ∷ query web params ∷ [])) none

  abbrev admin_topology : Async (State W) Json
  admin_topology = request web "GET" "/admin/topology" none
