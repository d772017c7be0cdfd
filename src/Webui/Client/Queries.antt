-- ===== src/Webui/Client/Queries.antt =====
-- server/webui/src/api/client.ts: the parameters of a query.
use pro_identity_access.Base.{
  String, true, false, ◌≡◌, inl, inr, refl, sym, ◌∙◌, Option, none, some, [], ◌∷◌, Dict, lookup,
  lookup-insert, ◌==◌, eq_iff, Bool-cases, arith,
}
use pro_identity_access.Webui.Client.{Param, sent, set_param, set_params}

-- What is given for a parameter: a missing key and `undefined` alike are nothing.
abbrev given : Option (Option Param) → Option Param
given none = none
given (some p) = p

-- An object has a key once.
abbrev IsObject : Dict (Option Param) → Type 0
IsObject [] = Unit
IsObject ((k, _) ∷ params) = (lookup k params ≡ none) × IsObject params

lookup-set_param_other :
    (k j : String) (v : Option String) (q : Dict String)
    → (j == k) ≡ false
    → lookup k (set_param j v q) ≡ lookup k q
lookup-set_param_other k j none q h = refl
lookup-set_param_other k j (some v) q h = rw (lookup-insert j k v q, h) refl

lookup-set_param_same :
    (k j : String) (v : Option String) (q : Dict String)
    → (j == k) ≡ true
    → lookup k q ≡ none
    → lookup k (set_param j v q) ≡ v
lookup-set_param_same k j none q h e = e
lookup-set_param_same k j (some v) q h e = rw (lookup-insert j k v q, h) refl

lookup-set_params_absent :
    (k : String) (params : Dict (Option Param)) (q : Dict String)
    → lookup k params ≡ none
    → lookup k (set_params params q) ≡ lookup k q
unfolding set_params lookup
lookup-set_params_absent k [] q h = refl
lookup-set_params_absent k ((j, v) ∷ params) q h = elim (Bool-cases (j == k)) [
  | inl e ↦ ground (arith, e, h)
  | inr e ↦
      lookup-set_params_absent k params (set_param j (sent v) q) (ground (arith, e, h))
      ∙ lookup-set_param_other k j (sent v) q e
]

lookup-set_params_from :
    (k : String) (params : Dict (Option Param)) (q : Dict String)
    → IsObject params
    → lookup k q ≡ none
    → lookup k (set_params params q) ≡ sent (given (lookup k params))
unfolding set_params lookup
lookup-set_params_from k [] q o h = h
lookup-set_params_from k ((j, v) ∷ params) q (once, o) h = elim (Bool-cases (j == k)) [
  | inl e ↦ rw e (
      lookup-set_params_absent k params (set_param j (sent v) q) (rw (sym ((eq_iff j k).0 e)) once)
      ∙ lookup-set_param_same k j (sent v) q e h)
  | inr e ↦ rw e (
      lookup-set_params_from k params (set_param j (sent v) q) o
        (lookup-set_param_other k j (sent v) q e ∙ h))
]

-- The query of an object holds exactly the parameters that are given and not empty: the text of
-- each under its key, a number in decimal, and nothing under any other key.
lookup-set_params :
    (k : String) (params : Dict (Option Param))
    → IsObject params
    → lookup k (set_params params []) ≡ sent (given (lookup k params))
unfolding lookup
lookup-set_params k params o = lookup-set_params_from k params [] o refl
