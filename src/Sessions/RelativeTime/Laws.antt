-- ===== src/Sessions/RelativeTime/Laws.antt =====
-- relativeTime.ts: the unit and the count of a label.
use distill_portal.Prelude.{ℕ, suc, ◌*◌, ◌/◌, ◌≤◌, ◌<◌, Text, not, Option, some, ◌≡◌, arith}
use distill_portal.Prelude.Int.{ℤ, pos, ◌-ℤ◌, ltb_ℤ}
use distill_portal.Sessions.RelativeTime.{
  Moment, TimeUnit, minute, hour, day, week, year, elapsed, label, abs_ms, gap_label, to_ms,
  relative_time_from,
}

abbrev pub unit_ms : TimeUnit → ℕ
unit_ms minute = 60000
unit_ms hour = 3600000
unit_ms day = 86400000
unit_ms week = 604800000
unit_ms year = 31536000000

elapsed_bounds :
    (ms : ℕ)
    → let e = elapsed (ms / 60000) in (e.1 * unit_ms e.0 ≤ ms) × (ms < suc e.1 * unit_ms e.0)
unfolding elapsed
elapsed_bounds ms = ground arith

-- Both times readable and at least thirty seconds apart: the label names a count of a unit, into the
-- past exactly if `now` is not before the other time, and the gap holds the unit that often and not
-- once more.
pub relative_time_from_floor :
    (parse_ms : Text → Option ℤ) (now earlier : Moment) (now_ms then_ms : ℤ)
    → to_ms parse_ms now ≡ some now_ms
    → to_ms parse_ms earlier ≡ some then_ms
    → 30000 ≤ abs_ms (now_ms -ℤ then_ms)
    → (unit : TimeUnit) × (n : ℕ) × (relative_time_from parse_ms now (some earlier)
        ≡ label (not (ltb_ℤ (now_ms -ℤ then_ms) (pos 0))) unit n)
      × (n * unit_ms unit ≤ abs_ms (now_ms -ℤ then_ms))
      × (abs_ms (now_ms -ℤ then_ms) < suc n * unit_ms unit)
unfolding relative_time_from gap_label
relative_time_from_floor parse_ms now earlier now_ms then_ms p q h =
    let e = elapsed (abs_ms (now_ms -ℤ then_ms) / 60000) in
    let (lo, hi) = elapsed_bounds (abs_ms (now_ms -ℤ then_ms)) in
    (e.0, e.1, rw (p, q) (ground arith), lo, hi)
