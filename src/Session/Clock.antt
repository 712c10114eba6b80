-- ===== src/Session/Clock.antt =====
-- `_is_time_sync_required` and `sync_time` of paradox/paradox.py. Points in time are numbers of
-- minutes and seconds on one scale, so that the timezone is already taken off.
use pai.Prelude.{
  ℕ, ◌+◌, ◌-◌, ◌*◌, ◌/◌, ◌%◌, ◌≤◌, ◌<◌, ◌≡◌, Bool, false, Option, none, some, ltb, arith, ◌⊎◌,
  if◌then◌else◌,
}

-- `now` as `datetime` gives it, to the second
pub record DateTime : Type 0 where
  pub year : ℕ
  pub month : ℕ
  pub day : ℕ
  pub hour : ℕ
  pub minute : ℕ
  pub second : ℕ

-- the arguments of the message SetTimeDate
pub record SetTimeDate : Type 0 where
  pub century : ℕ
  pub year : ℕ
  pub month : ℕ
  pub day : ℕ
  pub hour : ℕ
  pub minute : ℕ

-- abs(drift), with drift = now - panel time
abbrev pub distance : ℕ → ℕ → ℕ
distance a b = (a - b) + (b - a)

-- none stands for the KeyError of a panel that has not reported its time
unfoldable pub is_time_sync_required : ℕ → ℕ → Option ℕ → Bool
is_time_sync_required min_drift now none = false
is_time_sync_required min_drift now (some panel_time) = ltb min_drift (distance now panel_time)

abbrev pub time_arguments : DateTime → SetTimeDate
time_arguments now = record {
  century = now.year / 100;
  year = now.year % 100;
  month = now.month;
  day = now.day;
  hour = now.hour;
  minute = now.minute;
}

-- the message that `sync_time` sends, if any; the seconds of `now` on the scale are an argument
unfoldable pub sync_time : ℕ → ℕ → DateTime → Option ℕ → Option SetTimeDate
sync_time min_drift seconds now panel_time =
    if is_time_sync_required min_drift seconds panel_time then some (time_arguments now) else none

-- The message carries the whole year, in two parts that fit the panel's bytes for any year before
-- 25600, and it leaves out the seconds alone.
pub time_arguments-year :
    (now : DateTime)
    → now.year < 25600
    → ((time_arguments now).century * 100 + (time_arguments now).year ≡ now.year)
      × ((time_arguments now).century < 256)
      × ((time_arguments now).year < 100)
time_arguments-year now h = omega (arith, h)

-- A panel that starts the minute it was sent when the message arrives, within `delay` seconds of
-- the reading of the clock, is not sent the time again at that moment, where a whole minute and
-- the delay are within the drift that is allowed.
pub sync_time_settles :
    (min_drift seconds delay : ℕ) (now later : DateTime)
    → 59 + delay ≤ min_drift
    → sync_time min_drift (seconds + delay) later (some (seconds / 60 * 60)) ≡ none
unfolding sync_time is_time_sync_required
sync_time_settles min_drift seconds delay now later h = ground arith

-- The time is sent exactly when the panel has reported a time and it is off by more than allowed,
-- in either direction.
pub sync_time_iff :
    (min_drift seconds panel_time : ℕ) (now : DateTime)
    → (sync_time min_drift seconds now (some panel_time) ≡ some (time_arguments now)
        → (panel_time + min_drift < seconds) ⊎ (seconds + min_drift < panel_time))
      × ((panel_time + min_drift < seconds) ⊎ (seconds + min_drift < panel_time)
          → sync_time min_drift seconds now (some panel_time) ≡ some (time_arguments now))
unfolding sync_time is_time_sync_required
sync_time_iff min_drift seconds panel_time now = ground arith
