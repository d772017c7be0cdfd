-- ===== src/Desktop/OpenVpnPanel/Asking.antt =====
-- How often a failed connection opens its form (client/frontend/src/components/OpenVPNPanel.tsx).
use pro_identity_access.Base.{
  String, Bool, true, false, not, ◌≡◌, refl, sym, ap, ◌∙◌, inl, inr, Option, none, some, List, [],
  ◌∷◌, has, has-keep, ◌==◌, eq_iff, eq_refl, if◌then◌else◌, Bool-cases, Dict, lookup, arith,
}
use pro_identity_access.Desktop.OpenVpn.{OpenVpnStatus}
use pro_identity_access.Desktop.OpenVpnPanel.{
  Panel, visit, ask, ask_all, is_passphrase_error, set_open_form,
}

-- An object has a key once.
abbrev IsObject : Dict OpenVpnStatus → Type 0
IsObject [] = Unit
IsObject ((k, _) ∷ d) = (lookup k d ≡ none) × IsObject d

abbrev or_failed : Bool → Option OpenVpnStatus → Bool
or_failed b none = b
or_failed b (some st) = is_passphrase_error st

-- The session stopped for the passphrase of its key.
abbrev is_stopped : String → Dict OpenVpnStatus → Bool
is_stopped id sessions = or_failed false (lookup id sessions)

has-visit :
    (j id : String) (b : Bool) (p : Panel)
    → has j (visit id b p).asked ≡ (if j == id then b else has j p.asked)
unfolding visit
has-visit j id true p = elim (Bool-cases (has id p.asked)) [
  | inl e ↦ elim (Bool-cases (j == id)) [
    | inl g ↦ rw (e, g) (ap (λ k. has k p.asked) ((eq_iff j id).0 g) ∙ e)
    | inr g ↦ rw (e, g) refl
  ]
  | inr e ↦ elim (Bool-cases (j == id)) [ inl g ↦ rw (e, g) refl | inr g ↦ rw (e, g) refl ]
]
has-visit j id false p = has-keep (λ x. not (x == id)) j p.asked ∙ ground arith

eq_flip : (a b : String) → (a == b) ≡ (b == a)
eq_flip a b = ground (arith, eq_iff a b, eq_iff b a)

visit_same :
    (j id : String) (b : Bool) (p : Panel) → (id == j) ≡ true → has j (visit id b p).asked ≡ b
visit_same j id b p e = rw (has-visit j id b p, eq_flip j id, e) refl

visit_other :
    (j id : String) (b : Bool) (p : Panel)
    → (id == j) ≡ false
    → has j (visit id b p).asked ≡ has j p.asked
visit_other j id b p e = rw (has-visit j id b p, eq_flip j id, e) refl

has-ask :
    (j : String) (sessions : Dict OpenVpnStatus) (p : Panel)
    → IsObject sessions
    → has j (ask sessions p).asked ≡ or_failed (has j p.asked) (lookup j sessions)
unfolding ask lookup
has-ask j [] p o = refl
has-ask j ((id, st) ∷ sessions) p (once, o) =
    has-ask j sessions (visit id (is_passphrase_error st) p) o ∙ elim (Bool-cases (id == j)) [
      | inl e ↦
          let absent = ap (λ k. lookup k sessions) (sym ((eq_iff id j).0 e)) ∙ once in
          rw (e, absent) (visit_same j id (is_passphrase_error st) p e)
      | inr e ↦ rw e (
          ap (λ b. or_failed b (lookup j sessions)) (visit_other j id (is_passphrase_error st) p e))
    ]

visit_quiet :
    (id : String) (b : Bool) (p : Panel)
    → (b ≡ true → has id p.asked ≡ true)
    → (visit id b p).open_form ≡ p.open_form
unfolding visit
visit_quiet id true p h = rw (h refl) refl
visit_quiet id false p h = refl

not_stopped : (o : Option OpenVpnStatus) → o ≡ none → or_failed false o ≡ true → ⊥
not_stopped none e h = cc
not_stopped (some st) e h = cc

-- Each stopped session was asked for.
abbrev Known : Dict OpenVpnStatus → Panel → Type 0
Known sessions p = (j : String) → is_stopped j sessions ≡ true → has j p.asked ≡ true

ask_quiet :
    (sessions : Dict OpenVpnStatus) (p : Panel)
    → IsObject sessions
    → Known sessions p
    → (ask sessions p).open_form ≡ p.open_form
unfolding ask lookup
ask_quiet [] p o h = refl
ask_quiet ((id, st) ∷ sessions) p (once, o) h =
    let b = is_passphrase_error st in
    ask_quiet sessions (visit id b p) o (λ j m. elim (Bool-cases (id == j)) [
      | inl e ↦
          let absent = ap (λ k. lookup k sessions) (sym ((eq_iff id j).0 e)) ∙ once in
          elim (not_stopped (lookup j sessions) absent m) [ ]
      | inr e ↦ visit_other j id b p e ∙ h j (rw e m)
    ])
    ∙ visit_quiet id b p (λ e. h id (rw (eq_refl id) e))

stopped_known :
    (a b : Bool) (o : Option OpenVpnStatus)
    → a ≡ or_failed b o
    → or_failed false o ≡ true
    → a ≡ true
stopped_known a b none e h = cc
stopped_known a b (some st) e h = e ∙ h

-- In each report only sessions have stopped that had stopped in the report before.
abbrev pub NoNews : Dict OpenVpnStatus → List (Dict OpenVpnStatus) → Type 0
NoNews before [] = Unit
NoNews before (later ∷ reports) =
    IsObject later
    × ((j : String) → is_stopped j later ≡ true → is_stopped j before ≡ true)
    × NoNews later reports

ask-Known :
    (sessions : Dict OpenVpnStatus) (p : Panel)
    → IsObject sessions
    → Known sessions (ask sessions p)
ask-Known sessions p o j m =
    stopped_known _ (has j p.asked) (lookup j sessions) (has-ask j sessions p o) m

ask_all_quiet :
    (before : Dict OpenVpnStatus) (reports : List (Dict OpenVpnStatus)) (p : Panel)
    → Known before p
    → NoNews before reports
    → (ask_all reports p).open_form ≡ p.open_form
unfolding ask_all
ask_all_quiet before [] p h n = refl
ask_all_quiet before (later ∷ reports) p h (o, news, n) =
    ask_all_quiet later reports (ask later p) (ask-Known later p o) n
    ∙ ask_quiet later p o (λ j m. h j (news j m))

-- A connection that stopped for its passphrase opens its form once: if each report has a session
-- once and the user closes the form after a report, it stays closed through all reports that
-- follow, as long as in each of them only sessions have stopped that had stopped in the report
-- before.
pub ask_once :
    (before : Dict OpenVpnStatus) (reports : List (Dict OpenVpnStatus)) (p : Panel)
    → IsObject before
    → NoNews before reports
    → (ask_all reports (set_open_form none (ask before p))).open_form ≡ none
unfolding set_open_form
ask_once before reports p o n =
    ask_all_quiet before reports (set_open_form none (ask before p)) (ask-Known before p o) n
