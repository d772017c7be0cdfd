-- ===== src/Webui/Theme.antt =====
-- server/webui/src/stores/useThemeStore.ts: the theme of the web interface. `prefers_dark` is the
-- media query of the browser, a part of the page.
pub mod Cycle
use pro_identity_access.Base.{
  String, Bool, true, false, Option, none, some, ◌==◌, ◌||◌, if◌then◌else◌,
}

pub data Theme : Type 0 where
  light dark system : Theme

-- The store, the item `theme` of localStorage, the browser's preference and the class `dark` of
-- the document.
pub record Page : Type 0 where
  pub theme : Theme
  pub stored : Option String
  pub prefers_dark : Bool
  pub dark_class : Bool

abbrev name : Theme → String
name light = "light"
name dark = "dark"
name system = "system"

abbrev pub is_dark : Theme → Bool → Bool
is_dark light prefers_dark = false
is_dark dark prefers_dark = true
is_dark system prefers_dark = prefers_dark

unfoldable pub apply_theme : Theme → Page → Page
apply_theme t p = record p { dark_class = is_dark t p.prefers_dark }

-- `initialTheme`, from what localStorage holds
unfoldable pub initial_theme : Option String → Theme
initial_theme none = system
initial_theme (some saved) =
    if saved == "light" then light else if saved == "dark" then dark else system

unfoldable pub set_theme : Theme → Page → Page
unfolding apply_theme
set_theme t p = record (apply_theme t (record p { stored = some (name t) })) { theme = t }

abbrev pub next : Theme → Theme
next light = dark
next dark = system
next system = light

unfoldable pub toggle : Page → Page
toggle p = set_theme (next p.theme) p

abbrev follow : Theme → Page → Page
follow light p = p
follow dark p = p
follow system p = apply_theme system p

-- The listener of the media query: the preference has changed to `prefers`.
unfoldable pub preference_changed : Bool → Page → Page
preference_changed prefers p = follow p.theme (record p { prefers_dark = prefers })
