-- ===== src/Webui/Client/Profiles.antt =====
-- server/webui/src/api/client.ts: the administration of OpenVPN and WireGuard profiles. An object
-- that a caller builds is the JSON of it.
use pro_identity_access.Base.{String, Option, none, some, [], ◌∷◌}
use pro_identity_access.Async.{Async}
use pro_identity_access.Webui.Client.{
  Json, object, text, nil, member, Web, State, request, path, optional,
}

module _ {W : Type 0} (web : Web W) where
  abbrev admin_list_openvpn : Async (State W) Json
  admin_list_openvpn = request web "GET" "/admin/openvpn/profiles" none

  abbrev admin_create_openvpn : (body : Json) → Async (State W) Json
  admin_create_openvpn body = request web "POST" "/admin/openvpn/profiles" (some body)

  abbrev admin_update_openvpn : (id : String) (body : Json) → Async (State W) Json
  admin_update_openvpn id body =
      request web "PUT" (path ("/admin/openvpn/profiles/" ∷ id ∷ [])) (some body)

  abbrev admin_delete_openvpn : (id : String) → Async (State W) Json
  admin_delete_openvpn id = request web "DELETE" (path ("/admin/openvpn/profiles/" ∷ id ∷ [])) none

  abbrev admin_openvpn_assignments : (id : String) → Async (State W) Json
  admin_openvpn_assignments id =
      request web "GET" (path ("/admin/openvpn/profiles/" ∷ id ∷ "/assignments" ∷ [])) none

  abbrev admin_assign_openvpn :
      (id : String) (user_id : String) (custom_ip : Option String) → Async (State W) Json
  admin_assign_openvpn id user_id custom_ip =
      request web "POST" (path ("/admin/openvpn/profiles/" ∷ id ∷ "/assignments" ∷ []))
        (some (object (member "user_id" (text user_id) (optional "custom_ip" custom_ip nil))))

  abbrev admin_unassign_openvpn : (id : String) (user_id : String) → Async (State W) Json
  admin_unassign_openvpn id user_id =
      request web "DELETE" (path ("/admin/openvpn/profiles/" ∷ id ∷ "/assignments/" ∷ user_id ∷ []))
        none

  abbrev admin_list_wg_profiles : Async (State W) Json
  admin_list_wg_profiles = request web "GET" "/admin/wireguard/profiles" none

  abbrev admin_create_wg_profile : (body : Json) → Async (State W) Json
  admin_create_wg_profile body = request web "POST" "/admin/wireguard/profiles" (some body)

  abbrev admin_update_wg_profile : (id : String) (body : Json) → Async (State W) Json
  admin_update_wg_profile id body =
      request web "PUT" (path ("/admin/wireguard/profiles/" ∷ id ∷ [])) (some body)

  abbrev admin_delete_wg_profile : (id : String) → Async (State W) Json
  admin_delete_wg_profile id =
      request web "DELETE" (path ("/admin/wireguard/profiles/" ∷ id ∷ [])) none

  abbrev admin_release_wg_profile : (id : String) → Async (State W) Json
  admin_release_wg_profile id =
      request web "DELETE" (path ("/admin/wireguard/profiles/" ∷ id ∷ "/holder" ∷ [])) none

  abbrev admin_wg_assignments : (id : String) → Async (State W) Json
  admin_wg_assignments id =
      request web "GET" (path ("/admin/wireguard/profiles/" ∷ id ∷ "/assignments" ∷ [])) none

  abbrev admin_assign_wg : (id : String) (user_id : String) → Async (State W) Json
  admin_assign_wg id user_id =
      request web "POST" (path ("/admin/wireguard/profiles/" ∷ id ∷ "/assignments" ∷ []))
        (some (object (member "user_id" (text user_id) nil)))

  abbrev admin_unassign_wg : (id : String) (user_id : String) → Async (State W) Json
  admin_unassign_wg id user_id =
      request web "DELETE"
        (path ("/admin/wireguard/profiles/" ∷ id ∷ "/assignments/" ∷ user_id ∷ [])) none
