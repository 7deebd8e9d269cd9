-- ===== src/Time/Ages.antt =====
-- `formatAge` of problems.go and `formatDuration` of main.go: which unit an age is shown in, and its text.
use kubehealth.Prelude.{
  ℕ, ◌+◌, ◌-◌, ◌*◌, ◌/◌, ◌%◌, ◌≤◌, ◌<◌, String, [], ◌∷◌, arith, ltb, if◌then◌else◌, text_of,
  decimal,
}
use kubehealth.Prelude.Int.{pos, negsuc, pos_part}
use kubehealth.Time.{Duration, second, minute, hour}

-- What an age shows, before it is printed.
pub data Age : Type 0 where
  seconds : ℕ → Age
  minutes : ℕ → Age
  hours : ℕ → ℕ → Age
  days_hours : ℕ → ℕ → Age
  days : ℕ → Age

-- The switch of `formatAge`, on a duration that is not negative. `int(d.Hours())` is the whole hours.
age_of_nonneg : ℕ → Age
age_of_nonneg n =
    if ltb n minute
    then seconds (n / second)
    else if ltb n hour
    then minutes (n / minute)
    else if ltb n (24 * hour)
    then hours (n / hour) (n / minute % 60)
    else if ltb n (7 * 24 * hour)
    then days_hours (n / hour / 24) (n / hour % 24)
    else days (n / hour / 24)

-- `if d < 0 { d = 0 }` comes first.
unfoldable pub age_of : Duration → Age
unfolding age_of_nonneg
age_of d = age_of_nonneg (pos_part d)

two_digits : ℕ → String
two_digits n = if ltb n 10 then text_of ("0" ∷ decimal n ∷ []) else decimal n

pub print_age : Age → String
print_age (seconds n) = text_of (decimal n ∷ "s" ∷ [])
print_age (minutes n) = text_of (decimal n ∷ "m" ∷ [])
print_age (hours h m) = text_of (decimal h ∷ "h " ∷ two_digits m ∷ "m" ∷ [])
print_age (days_hours d h) = text_of (decimal d ∷ "d " ∷ decimal h ∷ "h" ∷ [])
print_age (days d) = text_of (decimal d ∷ "d" ∷ [])

unfoldable pub format_age : Duration → String
unfolding age_of print_age two_digits decimal
format_age d = print_age (age_of d)

-- The time that an age stands for, and the unit that it leaves out.
abbrev pub shown : Age → ℕ
shown (seconds n) = n * second
shown (minutes n) = n * minute
shown (hours h m) = h * hour + m * minute
shown (days_hours d h) = d * (24 * hour) + h * hour
shown (days d) = d * (24 * hour)

abbrev pub unit : Age → ℕ
unit (seconds n) = second
unit (minutes n) = minute
unit (hours h m) = minute
unit (days_hours d h) = hour
unit (days d) = 24 * hour

-- Each number is below what the next larger unit would take over.
abbrev pub InUnits : Age → Type 0
InUnits (seconds n) = n < 60
InUnits (minutes n) = (1 ≤ n) × (n < 60)
InUnits (hours h m) = (1 ≤ h) × (h < 24) × (m < 60)
InUnits (days_hours d h) = (1 ≤ d) × (d < 7) × (h < 24)
InUnits (days d) = 7 ≤ d

-- The age shown is the duration rounded down to its unit, and every number is in its range; a negative
-- duration is shown as 0 seconds.
pub age_of_bounds :
    (d : Duration)
    → (shown (age_of d) ≤ pos_part d)
      × (pos_part d < shown (age_of d) + unit (age_of d))
      × InUnits (age_of d)
unfolding age_of
age_of_bounds d = ground arith

-- `d.Round(time.Second)`: half a second goes away from zero.
round_second : ℕ → ℕ
round_second n =
    if ltb (n % second + n % second) second then n - n % second else n + (second - n % second)

-- `formatDuration`: a negative duration is shown in seconds with its sign.
unfoldable pub format_duration : Duration → String
unfolding round_second decimal
format_duration (pos n) =
    let d = round_second n in
    if ltb d minute
    then text_of (decimal (d / second) ∷ "s" ∷ [])
    else if ltb d hour
    then text_of (decimal (d / minute) ∷ "m" ∷ [])
    else if ltb d (24 * hour)
    then text_of (decimal (d / hour) ∷ "h" ∷ [])
    else text_of (decimal (d / hour / 24) ∷ "d" ∷ [])
format_duration (negsuc n) =
    let s = round_second (n + 1) / second in
    if ltb 0 s then text_of ("-" ∷ decimal s ∷ "s" ∷ []) else "0s"
