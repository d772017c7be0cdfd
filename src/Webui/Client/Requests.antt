-- ===== src/Webui/Client/Requests.antt =====
-- server/webui/src/api/client.ts: what a request carries and how it ends.
use Prim.Native.String
use pro_identity_access.Base.{
  String, true, ◌≡◌, inl, inr, refl, Option, none, some, [], ◌∷◌, lookup, truthy, Bool-cases,
  if◌then◌else◌,
}
use pro_identity_access.Async.{js_error, ok, threw, Outcome-cases, Ends, ◌>>=◌}
use pro_identity_access.Webui.Types.{User}
use pro_identity_access.Webui.Auth.{AuthState, set_auth, logout}
use pro_identity_access.Webui.Client.{
  Json, Web, Response, State, token, headers, error_text, receive, request,
}

-- The header of authorization is there exactly if there is a token, and then it holds the token.
lookup-headers :
    (token : String)
    → lookup "Authorization" (headers token)
      ≡ (if truthy token then some (String.◌++◌ "Bearer " token) else none)
unfolding lookup headers
lookup-headers token = elim (Bool-cases (truthy token)) [ inl e ↦ rw e refl | inr e ↦ rw e refl ]

module _ {W : Type 0} (web : Web W) where
  -- After a sign-in with a non-empty token, a request carries that token; after a sign-out it
  -- carries none, whoever was signed in before.
  pub request-auth :
      (method path : String) (body : Option Json) (t : String) (user : User) (s : AuthState) (w : W)
      → truthy t ≡ true
      → (request web method path body (set_auth t user s, w)
          ≡ (web.fetch (record {
            method = method;
            url = String.◌++◌ "/api/v1" path;
            headers =
                ("Content-Type", "application/json")
                ∷ ("Authorization", String.◌++◌ "Bearer " t)
                ∷ [];
            body = body;
          })
                >>= receive web)
              (set_auth t user s, w))
        × (request web method path body (logout s, w)
            ≡ (web.fetch (record {
              method = method;
              url = String.◌++◌ "/api/v1" path;
              headers = ("Content-Type", "application/json") ∷ [];
              body = body;
            })
                  >>= receive web)
                (logout s, w))
  unfolding request set_auth logout token headers
  request-auth method path body t user s w h = (rw h refl, refl)

  -- How the answer of the server ends a request: data that is no JSON is thrown as it comes; the
  -- data of a good answer is returned; and a bad answer throws an Error with its text, or the
  -- TypeError if the data is null.
  pub receive_lem :
      (res : Response) (s : State W)
      → Ends res.json
          (λ answer.
            if res.is_ok
            then (receive web res s ≡ (ok answer, s))
            else Ends
                (error_text web res.status answer)
                (λ message. receive web res s ≡ (threw (js_error "Error" message), s))
                (λ e. receive web res s ≡ (threw e, s)))
          (λ e. receive web res s ≡ (threw e, s))
  unfolding receive ◌>>=◌
  receive_lem res s = elim (Outcome-cases res.json) [
    | inl (answer, e) ↦ rw e (elim (Bool-cases res.is_ok) [
      | inl good ↦ rw good refl
      | inr bad ↦ rw bad (elim (Outcome-cases (error_text web res.status answer)) [
        | inl (m, em) ↦ rw em refl
        | inr (x, ex) ↦ rw ex refl
      ])
    ])
    | inr (x, e) ↦ rw e refl
  ]
