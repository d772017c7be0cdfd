-- ===== src/Tests/Web.antt =====
-- The web interface at concrete inputs: the server refuses each request with a text.
use Prim.Native.String
use pro_identity_access.Base.{ℕ, true, false, ◌≡◌, refl, Dict, Option, none, some, [], ◌∷◌}
use pro_identity_access.Async.{ok, js_error, ◌>>=◌}
use pro_identity_access.Webui.Types.{User}
use pro_identity_access.Webui.Auth.{AuthState, set_auth, logout}
use pro_identity_access.Webui.Theme.{system, Page}
use pro_identity_access.Webui.Client.{
  text, object, nil, member, Web, Response, Param, word, count, receive, request,
}
use pro_identity_access.Webui.Client.Requests.{request-auth}

abbrev refusal : Response
refusal = record {
  is_ok = false;
  status = 403;
  json = ok (object (member "error" (text "not an administrator") nil));
}

abbrev web : Web ℕ
web = record {
  fetch = λ r s. (ok refusal, s);
  encode = λ s. s;
  query_text = λ d. "";
  string_of = λ j. "[object Object]";
  null_property = js_error "TypeError" "null has no properties";
}

abbrev pub ada : User
ada = record {
  id = "u1";
  username = "ada";
  email = "ada@example.com";
  first_name = "Ada";
  last_name = "L";
  totp_enabled = false;
  is_admin = false;
  is_active = true;
  created_at = "2024-01-01";
  permissions = some ("users.view" ∷ []);
}

abbrev pub session : AuthState
session = record { token = some "t0"; user = some ada; ready = true; stored = some "t0" }

abbrev page : Page
page = record { theme = system; stored = none; prefers_dark = true; dark_class = true }

request-auth_example :
    (request web "GET" "/auth/me" none (set_auth "t1" ada session, 0)
      ≡ (web.fetch (record {
        method = "GET";
        url = String.◌++◌ "/api/v1" "/auth/me";
        headers =
            ("Content-Type", "application/json")
            ∷ ("Authorization", String.◌++◌ "Bearer " "t1")
            ∷ [];
        body = none;
      })
            >>= receive web)
          (set_auth "t1" ada session, 0))
    × (request web "GET" "/auth/me" none (logout session, 0)
        ≡ (web.fetch (record {
          method = "GET";
          url = String.◌++◌ "/api/v1" "/auth/me";
          headers = ("Content-Type", "application/json") ∷ [];
          body = none;
        })
              >>= receive web)
            (logout session, 0))
request-auth_example = request-auth web "GET" "/auth/me" none "t1" ada session 0 refl

abbrev params : Dict (Option Param)
params = ("limit", some (count 50)) ∷ ("q", some (word "")) ∷ ("since", none) ∷ []
