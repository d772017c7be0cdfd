-- ===== src/Webui/Client/Admin.antt =====
-- server/webui/src/api/client.ts: the administration of users, roles, resources, bundles, sessions
-- and settings. An object that a caller builds is the JSON of it.
use pro_identity_access.Base.{String, Option, none, some, [], ◌∷◌, Dict}
use pro_identity_access.Async.{Async}
use pro_identity_access.Webui.Client.{
  Json, object, text, nil, member, Param, Web, State, request, query, path,
}

module _ {W : Type 0} (web : Web W) where
  abbrev list_users : Async (State W) Json
  list_users = request web "GET" "/admin/users" none

  abbrev create_user : (body : Json) → Async (State W) Json
  create_user body = request web "POST" "/admin/users" (some body)

  abbrev update_user : (id : String) (body : Json) → Async (State W) Json
  update_user id body = request web "PUT" (path ("/admin/users/" ∷ id ∷ [])) (some body)

  abbrev delete_user : (id : String) → Async (State W) Json
  delete_user id = request web "DELETE" (path ("/admin/users/" ∷ id ∷ [])) none

  abbrev user_groups : (id : String) → Async (State W) Json
  user_groups id = request web "GET" (path ("/admin/users/" ∷ id ∷ "/groups" ∷ [])) none

  abbrev add_user_group : (user_id : String) (group_id : String) → Async (State W) Json
  add_user_group user_id group_id =
      request web "POST" (path ("/admin/users/" ∷ user_id ∷ "/groups" ∷ []))
        (some (object (member "group_id" (text group_id) nil)))

  abbrev remove_user_group : (user_id : String) (group_id : String) → Async (State W) Json
  remove_user_group user_id group_id =
      request web "DELETE" (path ("/admin/users/" ∷ user_id ∷ "/groups/" ∷ group_id ∷ [])) none

  abbrev list_groups : Async (State W) Json
  list_groups = request web "GET" "/admin/groups" none

  abbrev create_group : (body : Json) → Async (State W) Json
  create_group body = request web "POST" "/admin/groups" (some body)

  abbrev update_group : (id : String) (body : Json) → Async (State W) Json
  update_group id body = request web "PUT" (path ("/admin/groups/" ∷ id ∷ [])) (some body)

  abbrev delete_group : (id : String) → Async (State W) Json
  delete_group id = request web "DELETE" (path ("/admin/groups/" ∷ id ∷ [])) none

  abbrev group_access : (id : String) → Async (State W) Json
  group_access id = request web "GET" (path ("/admin/groups/" ∷ id ∷ "/access" ∷ [])) none

  abbrev add_group_access : (group_id : String) (resource_group_id : String) → Async (State W) Json
  add_group_access group_id resource_group_id =
      request web "POST" (path ("/admin/groups/" ∷ group_id ∷ "/access" ∷ []))
        (some (object (member "resource_group_id" (text resource_group_id) nil)))

  abbrev remove_group_access : (group_id : String) (rg_id : String) → Async (State W) Json
  remove_group_access group_id rg_id =
      request web "DELETE" (path ("/admin/groups/" ∷ group_id ∷ "/access/" ∷ rg_id ∷ [])) none

  abbrev list_resources : Async (State W) Json
  list_resources = request web "GET" "/admin/resources" none

  abbrev create_resource : (body : Json) → Async (State W) Json
  create_resource body = request web "POST" "/admin/resources" (some body)

  abbrev update_resource : (id : String) (body : Json) → Async (State W) Json
  update_resource id body = request web "PUT" (path ("/admin/resources/" ∷ id ∷ [])) (some body)

  abbrev delete_resource : (id : String) → Async (State W) Json
  delete_resource id = request web "DELETE" (path ("/admin/resources/" ∷ id ∷ [])) none

  abbrev list_installations : Async (State W) Json
  list_installations = request web "GET" "/admin/installations" none

  abbrev revoke_installation : (id : String) → Async (State W) Json
  revoke_installation id = request web "DELETE" (path ("/admin/installations/" ∷ id ∷ [])) none

  abbrev list_my_installations : Async (State W) Json
  list_my_installations = request web "GET" "/installations/mine" none

  abbrev list_resource_groups : Async (State W) Json
  list_resource_groups = request web "GET" "/admin/resource-groups" none

  abbrev create_resource_group : (body : Json) → Async (State W) Json
  create_resource_group body = request web "POST" "/admin/resource-groups" (some body)

  abbrev update_resource_group : (id : String) (body : Json) → Async (State W) Json
  update_resource_group id body =
      request web "PUT" (path ("/admin/resource-groups/" ∷ id ∷ [])) (some body)

  abbrev delete_resource_group : (id : String) → Async (State W) Json
  delete_resource_group id = request web "DELETE" (path ("/admin/resource-groups/" ∷ id ∷ [])) none

  abbrev get_resource_group : (id : String) → Async (State W) Json
  get_resource_group id = request web "GET" (path ("/admin/resource-groups/" ∷ id ∷ [])) none

  abbrev add_resource_group_member : (rg_id : String) (resource_id : String) → Async (State W) Json
  add_resource_group_member rg_id resource_id =
      request web "POST" (path ("/admin/resource-groups/" ∷ rg_id ∷ "/resources" ∷ []))
        (some (object (member "resource_id" (text resource_id) nil)))

  abbrev remove_resource_group_member :
      (rg_id : String) (resource_id : String) → Async (State W) Json
  remove_resource_group_member rg_id resource_id =
      request web "DELETE"
        (path ("/admin/resource-groups/" ∷ rg_id ∷ "/resources/" ∷ resource_id ∷ [])) none

  abbrev list_all_sessions : Async (State W) Json
  list_all_sessions = request web "GET" "/admin/sessions" none

  abbrev terminate_session : (id : String) → Async (State W) Json
  terminate_session id = request web "DELETE" (path ("/admin/sessions/" ∷ id ∷ [])) none

  abbrev list_vpn_events : (params : Dict (Option Param)) → Async (State W) Json
  list_vpn_events params =
      request web "GET" (path ("/admin/vpn-events" ∷ query web params ∷ [])) none

  abbrev admin_list_user_configs : Async (State W) Json
  admin_list_user_configs = request web "GET" "/admin/user-configs" none

  abbrev admin_delete_user_config : (id : String) → Async (State W) Json
  admin_delete_user_config id = request web "DELETE" (path ("/admin/user-configs/" ∷ id ∷ [])) none

  abbrev get_settings : Async (State W) Json
  get_settings = request web "GET" "/admin/settings" none

  abbrev update_settings : (body : Json) → Async (State W) Json
  update_settings body = request web "PUT" "/admin/settings" (some body)
