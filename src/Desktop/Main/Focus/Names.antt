-- ===== src/Desktop/Main/Focus/Names.antt =====
-- The names of the tunnels that stand for a server.
use Prim.Native.Char.{Char}
use Prim.Native.String
use Prim.Native.String.{[], ◌∷◌}
use text.Mathlib.TextLemmas.{cons-append, nil-append}
use text.Mathlib.TextPositions.{starts_with-append}
use pro_identity_access.Base.{String, true, ◌≡◌, refl, some, arith}
use pro_identity_access.Desktop.Types.{TunnelStatus, ServerInfo}
use pro_identity_access.Desktop.Main.Focus.{
  synth_prefix, synth_from_server, is_synth, remove_first, after_prefix,
}

after_prefix-append : (p s : String) → after_prefix p (String.◌++◌ p s) ≡ some s
unfolding after_prefix
after_prefix-append [] s = rw nil-append refl
after_prefix-append (c ∷ p) s = rw (cons-append) (ground (arith, after_prefix-append p s))

after_prefix_cons :
    (c : Char) (p s : String) → after_prefix (c ∷ p) (c ∷ (String.◌++◌ p s)) ≡ some s
unfolding after_prefix
after_prefix_cons c p s = ground (arith, after_prefix-append p s)

remove_first-append : (c : Char) (p s : String) → remove_first (c ∷ p) (String.◌++◌ (c ∷ p) s) ≡ s
unfolding remove_first
remove_first-append c p s = rw (cons-append) (ground (arith, after_prefix_cons c p s))

-- A tunnel that stands for a server is recognised by its id, from which the id of the server is read
-- back.
synth_from_server_lem :
    (srv : ServerInfo) (status : TunnelStatus)
    → (is_synth (some (synth_from_server srv status)) ≡ true)
      × (remove_first synth_prefix (synth_from_server srv status).id ≡ srv.id)
unfolding is_synth synth_from_server
synth_from_server_lem srv status =
    (starts_with-append synth_prefix srv.id, remove_first-append "_" "_synth_" srv.id)
