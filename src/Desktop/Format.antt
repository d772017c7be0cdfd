-- ===== src/Desktop/Format.antt =====
-- client/frontend/src/lib/format.ts: sizes, ages and durations as texts. `now` is the time in whole
-- seconds, so that the floor of a difference is the difference; the translations are `TimeTexts`,
-- and `fmtDecimal` is the parameter `decimal`, of a number of bytes, the unit and the digits.
use Prim.Native.String
use Prim.Native.String.{[], ◌∷◌}
use pro_identity_access.Base.{
  ℕ, ◌-◌, ◌/◌, ◌%◌, String, Option, none, some, ltb, nat_eq, if◌then◌else◌,
}

-- The texts of `t('time...')` and `tp('time.daysAgo', n)`.
pub record TimeTexts : Type 0 where
  pub never : String
  pub just_now : String
  pub seconds_ago : ℕ → String
  pub minutes_ago : ℕ → String
  pub hours_ago : ℕ → String
  pub days_ago : ℕ → String
  pub seconds : ℕ → String
  pub minutes : ℕ → String
  pub hours_minutes : (h m : ℕ) → String  -- the minutes in two digits
  pub days_hours : (d h : ℕ) → String

abbrev handshake_at : TimeTexts → ℕ → ℕ → String
handshake_at texts now unix_sec =
    let diff = now - unix_sec in
    if nat_eq unix_sec 0
    then texts.never
    else if ltb now unix_sec
    then texts.just_now
    else if ltb diff 60
    then texts.seconds_ago diff
    else if ltb diff 3600
    then texts.minutes_ago (diff / 60)
    else if ltb diff 86400
    then texts.hours_ago (diff / 3600)
    else texts.days_ago (diff / 86400)

abbrev format_handshake : TimeTexts → (now : ℕ) → Option ℕ → String
format_handshake texts now none = texts.never
format_handshake texts now (some unix_sec) = handshake_at texts now unix_sec

abbrev since_at : TimeTexts → ℕ → ℕ → String
since_at texts now unix_sec =
    let d = now - unix_sec in
    if nat_eq unix_sec 0
    then ""
    else if ltb d 60
    then texts.seconds d
    else if ltb d 3600
    then texts.minutes (d / 60)
    else if ltb d 86400
    then texts.hours_minutes (d / 3600) (d % 3600 / 60)
    else texts.days_hours (d / 86400) (d % 86400 / 3600)

abbrev format_since : TimeTexts → (now : ℕ) → Option ℕ → String
format_since texts now none = ""
format_since texts now (some unix_sec) = since_at texts now unix_sec

-- The threshold and the divisor of a unit are the same.
abbrev format_bytes : (whole : ℕ → String) (decimal : (n unit digits : ℕ) → String) → ℕ → String
format_bytes whole decimal n =
    if ltb n 1024
    then String.◌++◌ (whole n) " B"
    else if ltb n 1048576
    then String.◌++◌ (decimal n 1024 1) " KB"
    else if ltb n 1073741824
    then String.◌++◌ (decimal n 1048576 1) " MB"
    else if ltb n 1099511627776
    then String.◌++◌ (decimal n 1073741824 2) " GB"
    else String.◌++◌ (decimal n 1099511627776 2) " TB"

abbrev format_rate : (whole : ℕ → String) (decimal : (n unit digits : ℕ) → String) → ℕ → String
format_rate whole decimal bps = String.◌++◌ (format_bytes whole decimal bps) "/s"
