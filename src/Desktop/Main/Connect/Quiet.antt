-- ===== src/Desktop/Main/Connect/Quiet.antt =====
-- An attempt to connect never rejects.
use pro_identity_access.Base.{ℕ, String, refl}
use pro_identity_access.Async.{Thrown, message_of}
use pro_identity_access.Async.Returns.{
  Returns, Returns-pure, Returns-catch, Returns-if, Returns-bind,
}
use pro_identity_access.Desktop.Types.{ServerInfo}
use pro_identity_access.Desktop.Main.State.{View, change, view}
use pro_identity_access.Desktop.Main.Connect.{
  ConnectApi, connect_managed, refused, start_push, push_connect, ask_code, give_up,
}

module _ {W : Type 0} (api : ConnectApi W) (clock : Returns api.now) where
  Returns-change : (f : View → View) → Returns (change {W = W} f)
  Returns-change f = record { at = λ s. (tt, refl) }

  Returns-view : Returns (view {W = W})
  Returns-view = record { at = λ s. (s.1.0, refl) }

  push_connect-Returns : (srv : ServerInfo) (run : ℕ) → Returns (push_connect api srv run)
  unfolding push_connect
  push_connect-Returns srv run =
      Returns-bind _ _
        (Returns-catch _ _ λ e.
          Returns-bind _ _ Returns-view λ v. Returns-if _ _ _ (Returns-pure tt) (Returns-change _))
        (λ _. Returns-change _)

  start_push-Returns : (srv : ServerInfo) → Returns (start_push api srv)
  unfolding start_push
  start_push-Returns srv =
      Returns-bind _ _ Returns-view
        λ v. Returns-bind _ _ (Returns-change _) λ _. push_connect-Returns srv _

  give_up-Returns : (msg : String) → Returns (give_up api msg)
  unfolding give_up
  give_up-Returns msg =
      Returns-bind _ _ (Returns-change _)
        λ _. Returns-if _ _ _ (Returns-bind _ _ clock (λ now. Returns-change _)) (Returns-pure tt)

  ask_code-Returns : (srv : ServerInfo) → Returns (ask_code api srv)
  unfolding ask_code
  ask_code-Returns srv = Returns-change _

  refused-Returns : (srv : ServerInfo) (e : Thrown) → Returns (refused api srv e)
  unfolding refused
  refused-Returns srv e =
      Returns-if _ _ _ (start_push-Returns srv)
        (Returns-if _ _ _ (ask_code-Returns srv) (give_up-Returns (message_of e)))

  -- If reading the clock does not, `connectManaged` never rejects: whatever fails becomes a part of
  -- the view.
  pub connect_managed-Returns : (srv : ServerInfo) → Returns (connect_managed api srv)
  unfolding connect_managed
  connect_managed-Returns srv = Returns-bind _ _ Returns-view λ v.
      Returns-if _ _ _ (Returns-pure tt)
        (Returns-bind _ _ (Returns-change _) λ _. Returns-catch _ _ (refused-Returns srv))
