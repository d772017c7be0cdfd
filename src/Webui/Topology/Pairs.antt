-- ===== src/Webui/Topology/Pairs.antt =====
-- The pairs "user:server" of the topology.
use Prim.Native.Char.{code}
use Prim.Native.String
use Prim.Native.String.{[], ◌∷◌}
use text.Mathlib.TextLemmas.{cons-append, nil-append}
use pro_identity_access.Base.{String, true, false, ◌≡◌, refl, some, truthy, nat_eq}
use pro_identity_access.Webui.Topology.{split_colon, split_user_server}

abbrev HasNoColon : String → Type 0
HasNoColon [] = Unit
HasNoColon (c ∷ s) = (nat_eq (code c) b':' ≡ false) × HasNoColon s

split_colon-append :
    (user_id server_id : String)
    → HasNoColon user_id
    → split_colon (String.◌++◌ user_id (String.◌++◌ ":" server_id)) ≡ some (user_id, server_id)
unfolding split_colon
split_colon-append [] server_id h = rw (nil-append, cons-append, nil-append) refl
split_colon-append (c ∷ s) server_id (other, h) =
    rw (cons-append, other, split_colon-append s server_id h) refl

-- The pair that the server writes of a user and a server is read back as it was, if neither id is
-- empty and the user's has no colon.
pub split_user_server-append :
    (user_id server_id : String)
    → HasNoColon user_id
    → truthy user_id ≡ true
    → truthy server_id ≡ true
    → split_user_server (String.◌++◌ user_id (String.◌++◌ ":" server_id))
      ≡ some (user_id, server_id)
unfolding split_user_server
split_user_server-append user_id server_id h u s =
    rw (split_colon-append user_id server_id h, u, s) refl
