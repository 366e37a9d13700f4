-- ===== src/Clock.antt =====
-- Go's time.Time and time.Duration. A time is the nanoseconds since Go's zero time, which is 0; a
-- time before that is not represented. A duration is an int64 of nanoseconds.
use ddns_updater_beget.Common.{
  ℕ, ◌+◌, ◌-◌, ◌*◌, ◌^◌, ◌≤◌, ◌≡◌, Bool, true, false, ltb, leb, arith, if◌then◌else◌,
}

abbrev pub Time : Type 0
Time = ℕ

-- `negsuc n` is -(n + 1).
pub data ℤ : Type 0 where
  pos : ℕ → ℤ
  negsuc : ℕ → ℤ

abbrev pub Duration : Type 0
Duration = ℤ

abbrev pub max_duration : ℕ
max_duration = 2 ^ 63 - 1

abbrev pub second : ℕ
second = 1_000_000_000

abbrev pub hour : ℕ
hour = 3600 * second

at_most : ℕ → ℕ → ℕ
at_most bound n = if ltb bound n then bound else n

-- t.Sub(u), which stays within an int64.
unfoldable pub sub : Time → Time → Duration
unfolding at_most
sub t u =
    if leb u t
    then pos (at_most max_duration (t - u))
    else negsuc (at_most max_duration (u - t - 1))

-- d < e
unfoldable pub lt_duration : Duration → Duration → Bool
lt_duration (pos a) (pos b) = ltb a b
lt_duration (pos a) (negsuc b) = false
lt_duration (negsuc a) (pos b) = true
lt_duration (negsuc a) (negsuc b) = ltb b a

-- For a duration that is not negative, the test says that less than it has passed.
pub lt_duration-sub :
    (now t d : ℕ) → d ≤ max_duration → lt_duration (sub now t) (pos d) ≡ ltb now (t + d)
unfolding lt_duration sub
lt_duration-sub now t d h = ground arith
