-- ===== src/Time.antt =====
-- time.Time and time.Duration as the program uses them, and the ages it prints: `formatAge`
-- (problems.go), `formatDuration` (main.go).
pub mod Ages
use kubehealth.Prelude.{ℕ, ◌+◌, ◌-◌, ◌*◌, ◌^◌, Bool, ltb, leb, ◌==◌, if◌then◌else◌}
use kubehealth.Prelude.Int.{ℤ, pos, negsuc, sub_ℕ}

-- Nanoseconds since Go's zero time; no time of the program is before it.
abbrev pub Time : Type 0
Time = ℕ

-- Nanoseconds.
abbrev pub Duration : Type 0
Duration = ℤ

abbrev pub second : ℕ
second = 1_000_000_000

abbrev pub minute : ℕ
minute = 60 * second

abbrev pub hour : ℕ
hour = 60 * minute

abbrev pub is_zero : Time → Bool
is_zero t = t == 0

abbrev pub after : Time → Time → Bool
after t u = ltb u t

abbrev pub before : Time → Time → Bool
before t u = ltb t u

-- `t.Sub(u)`: a difference that an int64 cannot hold is the largest or the smallest duration.
abbrev pub sub : Time → Time → Duration
sub t u =
    if leb u t
    then (if ltb (t - u) (2 ^ 63) then pos (t - u) else pos (2 ^ 63 - 1))
    else if leb (u - t) (2 ^ 63)
    then negsuc (u - t - 1)
    else negsuc (2 ^ 63 - 1)

-- `t.Add(d)` for a duration of the program's constants.
abbrev pub add : Time → ℕ → Time
add t d = t + d
