-- ===== src/Desktop/Managed/Consistent.antt =====
-- What every action of the managed store keeps, whatever other code does while the action waits.
use pro_identity_access.Base.{
  String, true, ◌≡◌, refl, none, ◌⊎◌, inl, inr, List, [], ◌∷◌, All, arith,
}
use pro_identity_access.Async.{Async}
use pro_identity_access.Async.Keeps.{
  Keeps, On, Keeps-set, Keeps-catch, Keeps-both, Keeps-bind, Keeps-pure, keeps_rules,
}
use pro_identity_access.Desktop.Types.{ServerStatus, ServerInfo, ManagedLoginResult, TunnelInfo}
use pro_identity_access.Desktop.Managed.{
  ManagedStore, State, ManagedApi, status_of, reload, at_server, go_down, go_up, set_servers,
  signed_in, signed_out, login_reply, load_settings, load_servers, save_server_url, login,
  login_with_push, logout, connect_server, disconnect_server, clear_error,
}
use pro_identity_access.Desktop.Managed.Actions.{Action, run, run_all}

-- Whatever other code does during the calls of `api` keeps `P` of the store.
pub record CallsKeep {W : Type 0} (P : ManagedStore → Type 0) (api : ManagedApi W) : Type 0 where
  pub get_settings : Keeps (On P) api.get_settings
  pub list_servers : Keeps (On P) api.list_servers
  pub active_servers : Keeps (On P) api.active_servers
  pub save_server_url : (u : String) → Keeps (On P) (api.save_server_url u)
  pub login : (u p c : String) → Keeps (On P) (api.login u p c)
  pub login_with_push : (u p r : String) → Keeps (On P) (api.login_with_push u p r)
  pub logout : Keeps (On P) api.logout
  pub connect_server : (i n c : String) → Keeps (On P) (api.connect_server i n c)
  pub disconnect_server : (i : String) → Keeps (On P) (api.disconnect_server i)

abbrev TunnelWhenConnected : ServerStatus → Type 0
TunnelWhenConnected ss = (ss.tunnel_id ≡ none) ⊎ (ss.connected ≡ true)

abbrev pub IsConsistent : ManagedStore → Type 0
IsConsistent s = All TunnelWhenConnected s.servers

at_server-All :
    (id : String) (f : ServerStatus → ServerStatus)
    → ((ss : ServerStatus) → TunnelWhenConnected ss → TunnelWhenConnected (f ss))
    → (servers : List ServerStatus) → All TunnelWhenConnected servers
    → All TunnelWhenConnected (at_server id f servers)
unfolding at_server
at_server-All id f h [] _ = tt
at_server-All id f h (ss ∷ rest) (p, ps) = (ground (arith, h ss p, p), at_server-All id f h rest ps)

reload-IsConsistent :
    (listed : List ServerInfo) (active : List String) (s : ManagedStore)
    → IsConsistent s
    → IsConsistent (reload listed active s)
unfolding reload status_of
reload-IsConsistent [] active s _ = tt
reload-IsConsistent (i ∷ listed) active s h = (ground arith, reload-IsConsistent listed active s h)

close-IsConsistent :
    (id : String) (s : ManagedStore)
    → IsConsistent s
    → IsConsistent (set_servers (at_server id go_down) s)
close-IsConsistent id s h = at_server-All id go_down (λ ss k. inl refl) s.servers h

open-IsConsistent :
    (id : String) (t : TunnelInfo) (s : ManagedStore)
    → IsConsistent s
    → IsConsistent (set_servers (at_server id (go_up t)) s)
open-IsConsistent id t s h = at_server-All id (go_up t) (λ ss k. inr refl) s.servers h

signed_out-IsConsistent : (s : ManagedStore) → IsConsistent s → IsConsistent (signed_out s)
unfolding signed_out
signed_out-IsConsistent s h = tt

module _ {W : Type 0} (api : ManagedApi W) (calls : CallsKeep IsConsistent api) where
  abbrev Safe : {A : Type 0} → Async (State W) A → Type 0
  Safe m = Keeps (On IsConsistent) m

  load_settings-IsConsistent : Safe (load_settings api)
  unfolding load_settings
  load_settings-IsConsistent =
      Keeps-catch _ _ (search (keeps_rules, calls.get_settings)) (λ _. Keeps-pure tt)

  load_servers-IsConsistent : Safe (load_servers api)
  unfolding load_servers
  load_servers-IsConsistent =
      Keeps-catch _ _
        (Keeps-bind _ _ (Keeps-both _ _ _ calls.list_servers calls.active_servers)
          λ x. Keeps-set (reload x.0 x.1) (reload-IsConsistent x.0 x.1))
        (λ e. search keeps_rules)

  save_server_url-IsConsistent : (u : String) → Safe (save_server_url api u)
  unfolding save_server_url
  save_server_url-IsConsistent u =
      search (keeps_rules, calls.save_server_url, load_settings-IsConsistent)

  login_reply-IsConsistent : (r : ManagedLoginResult) → Safe (login_reply api r)
  unfolding login_reply signed_in
  login_reply-IsConsistent r = search keeps_rules

  login-IsConsistent : (u p c : String) → Safe (login api u p c)
  unfolding login
  login-IsConsistent u p c = search (keeps_rules, calls.login, login_reply-IsConsistent)

  login_with_push-IsConsistent : (u p r : String) → Safe (login_with_push api u p r)
  unfolding login_with_push signed_in
  login_with_push-IsConsistent u p r = search (keeps_rules, calls.login_with_push)

  logout-IsConsistent : Safe (logout api)
  unfolding logout
  logout-IsConsistent = Keeps-bind _ _ (search keeps_rules) λ _.
      Keeps-catch _ _
        (Keeps-bind _ _ calls.logout (λ _. Keeps-set signed_out signed_out-IsConsistent))
        λ e. search keeps_rules

  connect_server-IsConsistent :
      (server : ServerInfo) (c : String) → Safe (connect_server api server c)
  unfolding connect_server
  connect_server-IsConsistent server c =
      search (keeps_rules, open-IsConsistent, at_server-All, calls.connect_server)

  disconnect_server-IsConsistent : (id : String) → Safe (disconnect_server api id)
  unfolding disconnect_server
  disconnect_server-IsConsistent id =
      search (keeps_rules, close-IsConsistent, at_server-All, calls.disconnect_server)

  run-IsConsistent : (a : Action) → Safe (run api a)
  unfolding run clear_error
  run-IsConsistent Action.load_settings = load_settings-IsConsistent
  run-IsConsistent Action.load_servers = load_servers-IsConsistent
  run-IsConsistent Action.logout = logout-IsConsistent
  run-IsConsistent Action.clear_error = Keeps-set _ (λ _ h. h)
  run-IsConsistent (Action.save_server_url u) = save_server_url-IsConsistent u
  run-IsConsistent (Action.login u p c) =
      Keeps-bind (login api u p c) _ (login-IsConsistent u p c) (λ _. Keeps-pure tt)
  run-IsConsistent (Action.login_with_push u p r) = login_with_push-IsConsistent u p r
  run-IsConsistent (Action.connect_server server c) = connect_server-IsConsistent server c
  run-IsConsistent (Action.disconnect_server id) = disconnect_server-IsConsistent id

module _ {W : Type 0} where
  -- If every server with a tunnel is connected at first, this holds after any sequence of actions,
  -- each with its own answers of the service, whatever other code does while an action waits as
  -- long as that keeps the invariant too.
  pub run_all-IsConsistent :
      (steps : List (ManagedApi W × Action)) (s : State W)
      → All (λ step. CallsKeep IsConsistent step.0) steps
      → IsConsistent s.0
      → IsConsistent (run_all steps s).0
  unfolding run_all
  run_all-IsConsistent [] s _ h = h
  run_all-IsConsistent ((api, a) ∷ steps) s (calls, rest) h =
      run_all-IsConsistent steps (run api a s).1 rest
        (((run-IsConsistent api calls a).at s (record { holds = h })).holds)
