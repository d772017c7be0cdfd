-- ===== src/Tests/Client.antt =====
-- The traffic history, updates, OpenVPN sessions and texts at concrete inputs.
use Prim.Native.Nat
use pro_identity_access.Base.{ℕ, ◌≤◌, Bool, true, false, ◌≡◌, refl, none, some, [], ◌∷◌}
use pro_identity_access.Async.{ok, threw, plain}
use pro_identity_access.Desktop.Types.{connected}
use pro_identity_access.Desktop.Traffic.{Number, initial, push_sample}
use pro_identity_access.Desktop.Traffic.Window.{IsWindow, initial-IsWindow, push_sample-IsWindow}
use pro_identity_access.Desktop.Update.{UpdateStore, UpdateState, UpdateApi, available, failed}
use pro_identity_access.Desktop.Update.Prompt.{OffersVersion}
use pro_identity_access.Desktop.OpenVpn.{OpenVpnStatus, ErrorTexts}
use pro_identity_access.Desktop.I18n.{TextOps, interpolate}
use native.Mathlib.Nat.{le-max_left}

-- Whole numbers in place of floating-point ones, to run the store.
abbrev pub whole : Number
whole = record {
  Float = ℕ;
  from = λ n. n;
  sub = λ a b. Nat.◌-◌ a b;
  div = λ a b. Nat.◌/◌ a b;
  max = λ a b. Nat.max a b;
  Le = λ a b. a ≤ b;
  le_max = λ a b. le-max_left a b;
}

push_sample-IsWindow_example : IsWindow whole (push_sample whole "t" 1000 5 6 (initial whole))
push_sample-IsWindow_example =
    push_sample-IsWindow whole "t" 1000 5 6 (initial whole) (initial-IsWindow whole)

abbrev status : UpdateState
status = record {
  state = available;
  supported = true;
  current_version = "1.0";
  latest_version = some "1.1";
  mandatory = none;
  notes = none;
  progress = none;
  error = none;
}

abbrev offer : Bool → UpdateStore
offer writable = record {
  status = some status;
  checking = false;
  installing = false;
  error = "";
  dismissed = false;
  storage = record { writable = writable; snooze = none };
}

abbrev offers : (writable : Bool) → OffersVersion "1.1" (offer writable)
offers writable = record {
  status = status;
  shown = refl;
  is_available = refl;
  version = refl;
  named = refl;
  optional = refl;
  quiet = refl;
}

abbrev forced : UpdateState
forced = record status { mandatory = some true }

abbrev forced_store : UpdateStore
forced_store = record (offer true) { status = some forced }

abbrev broken : UpdateState
broken = record status { state = failed }

abbrev broken_store : UpdateStore
broken_store = record (offer true) { status = some broken }

abbrev update_api : UpdateApi (Unit {0})
update_api = record {
  check_for_update = λ s. (ok status, s);
  install_update = λ s. (threw (plain "no"), s);
  update_failed = "failed";
}

abbrev session : OpenVpnStatus
session = record {
  id = "s1";
  name = "Branch";
  status = connected;
  dev_type = "tun";
  ip = some "172.16.0.2";
  rx_bytes = 0;
  tx_bytes = 0;
  error = none;
  error_code = none;
  remote = some "203.0.113.10:1194 (UDP)";
  networks = none;
  connected_at = none;
}

abbrev texts : ErrorTexts
texts = record { key_passphrase_required = "needed"; key_passphrase_wrong = "wrong" }

filled_in : interpolate "Hi {u}, {v}!" (("u", "ann") ∷ []) ≡ "Hi ann, {v}!"
unfolding interpolate
filled_in = refl

abbrev as_it_is : TextOps
as_it_is = record { trim_lower = λ s. s }
