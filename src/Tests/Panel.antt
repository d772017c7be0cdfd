-- ===== src/Tests/Panel.antt =====
-- The forms of OpenVPN profiles, and of the endpoints of a server.
use pro_identity_access.Base.{
  ◌<◌, pos, true, false, ◌≡◌, refl, none, some, List, [], ◌∷◌, All, length, Dict, lookup,
}
use pro_identity_access.Desktop.Types.{error}
use pro_identity_access.Desktop.OpenVpn.{OpenVpnStatus}
use pro_identity_access.Desktop.OpenVpnPanel.{ask, ask_all, set_open_form}
use pro_identity_access.Desktop.OpenVpnPanel.Asking.{ask_once}
use pro_identity_access.Webui.Types.{WgServer, WgServerEndpoint}
use pro_identity_access.Webui.ServerConfig.{
  Config, Edit, host_at, remove, add, reset, edit_all, update_of,
}
use pro_identity_access.Webui.ServerConfig.Endpoints.{Leads, update_of-Leads}
use pro_identity_access.Webui.ServerConfig.Edits.{IsOn, update_of-IsServed}

abbrev stopped : OpenVpnStatus
stopped = record {
  id = "assigned:a";
  name = "Office";
  status = error;
  dev_type = "tun";
  ip = none;
  rx_bytes = 0;
  tx_bytes = 0;
  error = none;
  error_code = some "key_passphrase_required";
  remote = none;
  networks = none;
  connected_at = none;
}

abbrev report : Dict OpenVpnStatus
report = ("assigned:a", stopped) ∷ []

ask_once_example :
    (ask_all
      (report ∷ report ∷ [] ∷ [])
      (set_open_form none (ask report (record { asked = []; open_form = none })))).open_form
    ≡ none
unfolding lookup
ask_once_example =
    ask_once report (report ∷ report ∷ [] ∷ []) (record { asked = []; open_form = none }) (refl, tt)
      ((refl, tt), (λ j h. h), ((refl, tt), (λ j h. h), (tt, (λ j h. cc), tt)))

abbrev endpoint : WgServerEndpoint
endpoint = record {
  id = "e1";
  server_id = "s";
  name = "Old";
  host = "old.example.com";
  port = pos 51820;
  priority = pos 10;
  enabled = false;
  last_resolved_ip = none;
  last_resolved_at = none;
}

abbrev server : WgServer
server = record {
  id = "s";
  name = "Paris";
  endpoint = "paris.example.com";
  port = pos 51820;
  interface_name = "wg0";
  public_key = none;
  subnet = "10.8.1.0/24";
  dns = none;
  external = false;
  is_active = true;
  running = some true;
  endpoints = some (endpoint ∷ []);
  created_at = "2024-01-01";
}

abbrev empty : Config
empty = record {
  form = record { name = ""; endpoint = ""; port = ""; dns = "" };
  endpoints = [];
  busy = false;
}

abbrev edits : List Edit
edits = add ∷ host_at 1 "backup.example.com" ∷ remove 5 ∷ []

update_of-IsServed_example :
    let edited = edit_all (λ _. some (pos 51820)) server edits (reset server empty) in
    (0 < length edited.endpoints)
    × All IsOn (update_of (λ s. s) (λ _. some (pos 51820)) server edited).endpoints
update_of-IsServed_example = update_of-IsServed (λ s. s) (λ _. some (pos 51820)) server edits empty

abbrev two_rows : Config
two_rows = record empty {
  endpoints =
      record {
        name = "";
        host = "paris.example.com";
        port = pos 0;
        priority = pos 7;
        enabled = none;
      }
      ∷ record {
        name = "";
        host = "backup.example.com";
        port = pos 443;
        priority = pos 0;
        enabled = some true;
      }
      ∷ [];
}

update_of-Leads_example :
    Leads "paris.example.com" (update_of (λ s. s) (λ _. none) server two_rows).endpoints
update_of-Leads_example =
    update_of-Leads (λ s. s) (λ _. none) server two_rows _ _ refl refl (tt, tt)
