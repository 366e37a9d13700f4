-- ===== src/Records/Since.antt =====
-- internal/models/history.go: GetDurationSinceSuccess, with Duration.Round of the package time.
use native.Mathlib.Nat.{suc-mul, mul-div_cancel, div-add-mod', mod-lt}
use ddns_updater_beget.Common.{
  ℕ, zero, suc, ◌+◌, ◌-◌, ◌*◌, ◌/◌, ◌%◌, ◌^◌, ◌≤◌, ◌<◌, ◌≡◌, refl, [], ◌∷◌, ◌++◌, Option, none,
  some, Bytes, codes, itoa, true, false, ◌⊎◌, last?, last?-concat, ltb, arith, if◌then◌else◌,
}
use ddns_updater_beget.Clock.{Time, Duration, pos, negsuc, max_duration, second, hour, sub}
use ddns_updater_beget.Records.Defs.{HistoryEvent, History}

abbrev minute : ℕ
minute = 60 * second

abbrev day : ℕ
day = 24 * hour

-- Duration.Round: the multiple of `unit` nearest to a magnitude `d`, half a unit away from 0, or the
-- largest magnitude `cap` if that is passed.
unfoldable round_to : ℕ → ℕ → ℕ → ℕ
round_to cap unit d =
    let r = d % unit in
    if ltb (r + r) unit then d - r else if ltb cap (d + (unit - r)) then cap else d + (unit - r)

-- int(duration.Round(unit).Seconds()), and with Minutes, Hours and Hours over 24.
unfoldable count : ℕ → ℕ → ℕ → ℕ
unfolding round_to
count cap unit d = round_to cap unit d / unit

-- The unit of the case that the switch takes for a duration that is not negative.
unfoldable pub scale : ℕ → ℕ × Bytes
scale d =
    if ltb d minute
    then (second, codes "s")
    else if ltb d hour
    then (minute, codes "m")
    else if ltb d day
    then (hour, codes "h")
    else (day, codes "d")

-- %d of a number that is not positive, from its magnitude.
minus : ℕ → Bytes
minus zero = codes "0"
minus (suc n) = codes "-" ++ itoa (suc n)

-- A negative duration, of a success later than `now`, is in the first case.
unfoldable duration_text : Duration → Bytes
unfolding scale count minus
duration_text (pos d) = itoa (count max_duration (scale d).0 d) ++ (scale d).1
duration_text (negsuc n) = minus (count (2 ^ 63) second (suc n)) ++ codes "s"

since_event : Time → Option HistoryEvent → Bytes
unfolding duration_text
since_event now none = codes "N/A"
since_event now (some e) = duration_text (sub now e.time)

-- GetDurationSinceSuccess
unfoldable pub get_duration_since_success : History → Time → Bytes
unfolding since_event
get_duration_since_success h now = since_event now (last? h)

-- A number of units that is within half a unit of a duration.
abbrev pub IsNear : ℕ → ℕ → ℕ → Type 0
IsNear n unit d = (2 * (n * unit) ≤ 2 * d + unit) × (2 * d < 2 * (n * unit) + unit)

module _ (cap unit d : ℕ) (positive : 0 < unit) where
  count_down : (d % unit + d % unit < unit) → count cap unit d ≡ d / unit
  unfolding count round_to
  count_down h =
      let split = div-add-mod' d unit in
      let less : ltb (d % unit + d % unit) unit ≡ true = ground arith in
      let whole : d - d % unit ≡ d / unit * unit = omega arith in
      rw (less, whole) (mul-div_cancel (d / unit) positive)

  count_up : unit ≤ d % unit + d % unit → d + unit ≤ cap → count cap unit d ≡ suc (d / unit)
  unfolding count round_to
  count_up h fits =
      let split = div-add-mod' d unit in
      let small = mod-lt d positive in
      let more : ltb (d % unit + d % unit) unit ≡ false = ground arith in
      let within : ltb cap (d + (unit - d % unit)) ≡ false = ground arith in
      let product = suc-mul (d / unit) unit in
      let whole : d + (unit - d % unit) ≡ suc (d / unit) * unit = omega arith in
      rw (more, within, whole) (mul-div_cancel (suc (d / unit)) positive)

  count-IsNear : d + unit ≤ cap → IsNear (count cap unit d) unit d
  count-IsNear fits =
      let split = div-add-mod' d unit in
      let small = mod-lt d positive in
      let product = suc-mul (d / unit) unit in
      let down = λ (h : d % unit + d % unit < unit). count_down h in
      let up = λ (h : unit ≤ d % unit + d % unit). count_up h fits in grind (arith, down, up)

scale-fits : (d : ℕ) → ((scale d).0 ≤ d) ⊎ ((scale d).0 ≡ second)
unfolding scale
scale-fits d = ground arith

scale-positive : (d : ℕ) → (0 < (scale d).0) × ((scale d).0 ≤ day)
unfolding scale
scale-positive d = ground arith

-- For a history whose last event `e` is not later than `now`, and by a day less than 292 years old, the
-- text is a number and a unit: the time since `e` differs from that many units by half a unit at most,
-- and the unit is not larger than that time, unless it is the second.
pub get_duration_since_success-IsNear :
    (h : History) (e : HistoryEvent) (now : Time)
    → e.time ≤ now
    → now - e.time + day ≤ max_duration
    → let d = now - e.time in
      (n : ℕ) × (get_duration_since_success (h ++ e ∷ []) now ≡ itoa n ++ (scale d).1)
      × IsNear n (scale d).0 d
      × (((scale d).0 ≤ d) ⊎ ((scale d).0 ≡ second))
unfolding get_duration_since_success duration_text
get_duration_since_success-IsNear h e now past recent =
    let d = now - e.time in
    let (positive, small) = scale-positive d in
    let since : sub now e.time ≡ pos d = unfold sub in ground arith in
    (
      count max_duration (scale d).0 d,
      rw (last?-concat h e, since) refl,
      count-IsNear max_duration (scale d).0 d positive (omega arith),
      scale-fits d,
    )
