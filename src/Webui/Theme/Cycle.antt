-- ===== src/Webui/Theme/Cycle.antt =====
-- server/webui/src/stores/useThemeStore.ts: the theme that is shown, kept and chosen next.
use pro_identity_access.Base.{String, Bool, ◌≡◌, refl, ◌∙◌, Option}
use pro_identity_access.Webui.Theme.{
  Theme, light, dark, system, Page, is_dark, apply_theme, initial_theme, set_theme, next, toggle,
  preference_changed,
}

-- The theme that is set is the one that the next load of the page starts with.
initial_theme-set_theme : (t : Theme) (p : Page) → initial_theme (set_theme t p).stored ≡ t
unfolding set_theme initial_theme
initial_theme-set_theme light p = refl
initial_theme-set_theme dark p = refl
initial_theme-set_theme system p = refl

-- The document is dark exactly as the theme and the browser's preference say.
abbrev IsShown : Page → Type 0
IsShown p = p.dark_class ≡ is_dark p.theme p.prefers_dark

preference_changed-IsShown :
    (theme : Theme) (stored : Option String) (prefers_dark dark_class prefers : Bool)
    → dark_class ≡ is_dark theme prefers_dark
    → IsShown (
        preference_changed prefers (record {
          theme = theme;
          stored = stored;
          prefers_dark = prefers_dark;
          dark_class = dark_class;
        }))
unfolding preference_changed apply_theme
preference_changed-IsShown light stored prefers_dark dark_class prefers h = h
preference_changed-IsShown dark stored prefers_dark dark_class prefers h = h
preference_changed-IsShown system stored prefers_dark dark_class prefers h = refl

-- Setting a theme and toggling make the document show the theme that is then chosen, and a change
-- of the browser's preference keeps a document that shows its theme showing it.
theme-IsShown :
    (t : Theme) (prefers : Bool) (p : Page)
    → IsShown p
    → IsShown (set_theme t p) × IsShown (toggle p) × IsShown (preference_changed prefers p)
unfolding set_theme toggle
theme-IsShown t prefers p h =
    (refl, refl, preference_changed-IsShown p.theme p.stored p.prefers_dark p.dark_class prefers h)

next_cycle : (t : Theme) → next (next (next t)) ≡ t
next_cycle light = refl
next_cycle dark = refl
next_cycle system = refl

-- Three toggles come back to the theme that they started from, and keep it for the next load.
toggle_cycle :
    (p : Page)
    → ((toggle (toggle (toggle p))).theme ≡ p.theme)
      × (initial_theme (toggle (toggle (toggle p))).stored ≡ p.theme)
unfolding toggle set_theme
toggle_cycle p =
    (next_cycle p.theme, initial_theme-set_theme _ (toggle (toggle p)) ∙ next_cycle p.theme)
