-- ===== src/Sessions/RelativeTime.antt =====
-- apps/frontend/src/features/sessions/relativeTime.ts: the label of a timestamp against `now`.
-- `parse_ms` is `Date.parse` in milliseconds, none where it gives NaN.
pub mod Laws
use distill_portal.Prelude.{
  ℕ, ◌+◌, ◌/◌, Text, lit, decimal, Bool, true, false, not, Option, none, some, ◌∷◌, [], ◌++◌, ltb,
  if◌then◌else◌,
}
use distill_portal.Prelude.Int.{ℤ, pos, negsuc, ◌-ℤ◌, pos_part, neg_part, ltb_ℤ, ◌≤ℤ◌}

-- `Date | string`; an invalid date has no time.
pub data Moment : Type 0 where
  date : Option ℤ → Moment
  text : Text → Moment

pub data TimeUnit : Type 0 where
  minute : TimeUnit
  hour : TimeUnit
  day : TimeUnit
  week : TimeUnit
  year : TimeUnit

unfoldable pub unit_letter : TimeUnit → Text
unfolding lit
unit_letter minute = lit "m"
unit_letter hour = lit "h"
unit_letter day = lit "d"
unit_letter week = lit "w"
unit_letter year = lit "y"

-- The unit and the count that the cascade of thresholds chooses for a gap in minutes.
unfoldable pub elapsed : ℕ → TimeUnit × ℕ
elapsed minutes =
    let hours = minutes / 60 in
    let days = hours / 24 in
    let weeks = days / 7 in
    if ltb minutes 60
    then (minute, minutes)
    else if ltb hours 24
    then (hour, hours)
    else if ltb days 30
    then (day, days)
    else if ltb weeks 53
    then (week, weeks)
    else (year, days / 365)

unfoldable pub label : Bool → TimeUnit → ℕ → Text
unfolding lit unit_letter decimal
label true unit n = decimal n ++ unit_letter unit ++ lit " ago"
label false unit n = lit "in " ++ decimal n ++ unit_letter unit

abbrev pub abs_ms : ℤ → ℕ
abs_ms (pos n) = n
abs_ms (negsuc n) = n + 1

abbrev pub em_dash : Text
em_dash = 0x2014 ∷ []

unfoldable pub gap_label : ℤ → Text
unfolding lit label elapsed
gap_label delta_ms =
    if ltb (abs_ms delta_ms) 30000
    then lit "just now"
    else let e = elapsed (abs_ms delta_ms / 60000) in label (not (ltb_ℤ delta_ms (pos 0))) e.0 e.1

module _ (parse_ms : Text → Option ℤ) where
  abbrev pub to_ms : Moment → Option ℤ
  to_ms (date ms) = ms
  to_ms (text s) = parse_ms s

  abbrev pub between : Option ℤ → Option ℤ → Text
  between (some now_ms) (some then_ms) = gap_label (now_ms -ℤ then_ms)
  between _ _ = em_dash

  unfoldable pub relative_time_from : Moment → Option Moment → Text
  unfolding gap_label ◌-ℤ◌
  relative_time_from now none = em_dash
  relative_time_from now (some earlier) = between (to_ms now) (to_ms earlier)
