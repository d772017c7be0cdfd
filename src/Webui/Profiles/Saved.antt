-- ===== src/Webui/Profiles/Saved.antt =====
-- server/webui/src/pages/WireGuardProfiles.tsx: the settings of a profile after they were saved.
use pro_identity_access.Base.{
  String, not, ◌||◌, ◌≡◌, refl, or_else, inl, inr, Bool-cases, ◌==◌, arith,
}
use pro_identity_access.Webui.Profiles.{if_given}
use pro_identity_access.Webui.Profiles.Manage.{Sheet, is_dirty, keep_saved}

or_else-if_given : (s : String) → or_else (if_given s) "" ≡ s
or_else-if_given String.[] = refl
or_else-if_given (String.◌∷◌ c s) = refl

-- After a save the sheet has changes left exactly if the name or the description in its fields has
-- space around it that the saved texts lost: the code compares the fields with the trimmed texts.
is_dirty-keep_saved :
    {F : Type 0} (trim : String → String) (s : Sheet F)
    → is_dirty (keep_saved trim s.edit_name s.edit_description s.edit_shared s) ≡ (
        not (s.edit_name == trim s.edit_name)
        || not (s.edit_description == trim s.edit_description))
unfolding is_dirty keep_saved
is_dirty-keep_saved trim s = elim (Bool-cases s.edit_shared) [
  | inl e ↦ rw (or_else-if_given (trim s.edit_description), e) (ground arith)
  | inr e ↦ rw (or_else-if_given (trim s.edit_description), e) (ground arith)
]
