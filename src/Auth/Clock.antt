-- ===== src/Auth/Clock.antt =====
-- internal/auth/credential.go: durations, which are 64-bit integers of nanoseconds, and the times that
-- they lead to, whose seconds do not overflow.
use scia.Base.{
  ℕ, suc, ◌+◌, ◌-◌, ◌*◌, ◌%◌, Bool, false, Option, none, some, String, ◌==◌, if◌then◌else◌, ltb,
  leb, ℤ, pos, negsuc, is_negative, is_zero, ◌||◌,
}

abbrev pub second : ℕ
second = 1000000000

abbrev pub hour : ℕ
hour = 3600 * second

-- time.Duration(315360000) * time.Second, and 10 * 365 * 24 * time.Hour
abbrev pub ten_years : ℤ
ten_years = pos (315360000 * second)

abbrev pub int64_count : ℕ
int64_count = 18446744073709551616

abbrev pub int64_half : ℕ
int64_half = 9223372036854775808

-- The 64-bit integer with a residue modulo 2 ^ 64.
abbrev pub int64_of : ℕ → ℤ
int64_of r = if ltb r int64_half then pos r else negsuc (int64_count - 1 - r)

-- time.Duration(n) * time.Second, which wraps around.
unfoldable pub seconds : ℤ → ℤ
seconds (pos n) = int64_of (n * second % int64_count)
seconds (negsuc n) = int64_of ((int64_count - suc n * second % int64_count) % int64_count)

-- The lifetime of a token from its `expires_in`: an hour where that is not positive.
abbrev pub positive_or_hour : ℤ → ℤ
positive_or_hour d = if is_negative d || is_zero d then pos hour else d

unfoldable pub lifetime : ℤ → ℤ
unfolding seconds
lifetime expires_in = positive_or_hour (seconds expires_in)

-- Time.Add
abbrev pub add_duration : ℕ → ℤ → ℤ
add_duration t (pos n) = pos (t + n)
add_duration t (negsuc n) = if leb (suc n) t then pos (t - suc n) else negsuc (n - t)

-- time.Until(t) > 30 * time.Second
abbrev pub is_live : ℕ → ℤ → Bool
is_live now (pos t) = ltb (now + 30 * second) t
is_live now (negsuc n) = false

-- parseExpiresIn, behind strconv.ParseInt
abbrev positive_seconds : Option ℤ → Option ℤ
positive_seconds none = none
positive_seconds (some n) = if is_negative n || is_zero n then none else some (seconds n)

unfoldable pub parse_expires_in : (String → Option ℤ) → String → Option ℤ
unfolding seconds
parse_expires_in parse_int raw = if raw == "" then none else positive_seconds (parse_int raw)
