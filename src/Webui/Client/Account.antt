-- ===== src/Webui/Client/Account.antt =====
-- server/webui/src/api/client.ts: the account of the signed-in user, its second factors and
-- passkeys, and its own servers and sessions. An object that a caller builds is the JSON of it.
use pro_identity_access.Base.{String, Option, none, some, [], ◌∷◌}
use pro_identity_access.Async.{Async}
use pro_identity_access.Webui.Client.{
  Json, object, text, nil, member, Web, State, request, path, optional,
}

module _ {W : Type 0} (web : Web W) where
  abbrev login :
      (username : String) (password : String) (totp_code : Option String)
      (push_auth_request_id : Option String)
      → Async (State W) Json
  login username password totp_code push_auth_request_id = request web "POST" "/auth/login" (
      some (
        object (
          member "username" (text username) (
            member "password" (text password) (
              optional "totp_code" totp_code
                (optional "push_auth_request_id" push_auth_request_id nil))))))

  abbrev poll_push_status : (id : String) → Async (State W) Json
  poll_push_status id = request web "GET" (path ("/auth/push-status/" ∷ id ∷ [])) none

  abbrev me : Async (State W) Json
  me = request web "GET" "/auth/me" none

  abbrev server_info : Async (State W) Json
  server_info = request web "GET" "/info" none

  abbrev create_push_auth : (context : String) → Async (State W) Json
  create_push_auth context =
      request web "POST" "/auth/push" (some (object (member "context" (text context) nil)))

  abbrev change_password :
      (current_password : String) (new_password : String) → Async (State W) Json
  change_password current_password new_password = request web "POST" "/auth/change-password" (
      some (
        object (
          member "current_password" (text current_password)
            (member "new_password" (text new_password) nil))))

  abbrev totp_setup : Async (State W) Json
  totp_setup = request web "POST" "/auth/totp/setup" none

  abbrev totp_confirm : (code : String) → Async (State W) Json
  totp_confirm code =
      request web "POST" "/auth/totp/confirm" (some (object (member "code" (text code) nil)))

  abbrev totp_disable : (code : String) → Async (State W) Json
  totp_disable code =
      request web "POST" "/auth/totp/disable" (some (object (member "code" (text code) nil)))

  abbrev list_passkeys : Async (State W) Json
  list_passkeys = request web "GET" "/auth/passkeys" none

  abbrev delete_passkey : (id : String) → Async (State W) Json
  delete_passkey id = request web "DELETE" (path ("/auth/passkeys/" ∷ id ∷ [])) none

  abbrev passkey_login_begin : (username : String) → Async (State W) Json
  passkey_login_begin username =
      request web "POST" "/auth/passkey/login/begin"
        (some (object (member "username" (text username) nil)))

  abbrev passkey_login_finish : (username : String) (assertion : Json) → Async (State W) Json
  passkey_login_finish username assertion =
      request web "POST" (path ("/auth/passkey/login/finish?username=" ∷ web.encode username ∷ []))
        (some assertion)

  abbrev passkey_register_begin : Async (State W) Json
  passkey_register_begin = request web "POST" "/auth/passkey/register/begin" none

  abbrev passkey_register_finish : (name : String) (attestation : Json) → Async (State W) Json
  passkey_register_finish name attestation =
      request web "POST" (path ("/auth/passkey/register/finish?name=" ∷ web.encode name ∷ []))
        (some attestation)

  abbrev list_my_servers : Async (State W) Json
  list_my_servers = request web "GET" "/servers" none

  abbrev my_sessions : Async (State W) Json
  my_sessions = request web "GET" "/sessions/mine" none

  abbrev create_session : (server_id : String) (client_public_key : String) → Async (State W) Json
  create_session server_id client_public_key = request web "POST" "/sessions" (
      some (
        object (
          member "server_id" (text server_id)
            (member "client_public_key" (text client_public_key) nil))))

  abbrev delete_session : (id : String) → Async (State W) Json
  delete_session id = request web "DELETE" (path ("/sessions/" ∷ id ∷ [])) none
