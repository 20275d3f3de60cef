-- ===== src/Timetable/Fields/Times.antt =====
-- The clock times of a service day, written and read.
use istanbulmcp.Prelude.{
  ℕ, ◌+◌, ◌*◌, ◌/◌, ◌%◌, ◌≤◌, ◌<◌, ◌≡◌, ap, ◌∙◌, true, some, [], ◌∷◌, arith, if◌then◌else◌,
}
use istanbulmcp.Timetable.{Text}
use istanbulmcp.Timetable.Fields.{
  parse_schedule_time, minutes_seconds, format_time, max_departure_seconds, is_digit, digit,
  two_digits,
}

minutes_seconds_bound :
    (h : ℕ) (s : Text) (n : ℕ) → minutes_seconds h s ≡ some n → n ≤ max_departure_seconds
unfolding minutes_seconds
minutes_seconds_bound h (p ∷ m ∷ k ∷ q ∷ s ∷ t ∷ []) n e = ground arith
minutes_seconds_bound h _ n e = absurd (cc)

-- A time that is read lies within the service day of 72 hours.
pub parse_schedule_time_bound :
    (s : Text) (n : ℕ) → parse_schedule_time s ≡ some (some n) → n ≤ max_departure_seconds
unfolding parse_schedule_time
parse_schedule_time_bound [] n e = absurd (cc)
parse_schedule_time_bound (a ∷ []) n e = absurd (cc)
parse_schedule_time_bound (a ∷ b ∷ rest) n e = ground (
  arith,
  minutes_seconds_bound (if is_digit b then digit a * 10 + digit b else digit a)
      (if is_digit b then rest else b ∷ rest) n,
)

digit_lem : (k : ℕ) → k < 10 → (is_digit (b'0' + k) ≡ true) × (digit (b'0' + k) ≡ k)
digit_lem k h = (ground arith, omega arith)

minutes_seconds_lem :
    (h a b c d : ℕ)
    → a < 6
    → b < 10
    → c < 6
    → d < 10
    → h * 3600 + (a * 10 + b) * 60 + (c * 10 + d) ≤ max_departure_seconds
    → minutes_seconds h (b':' ∷ (b'0' + a) ∷ (b'0' + b) ∷ b':' ∷ (b'0' + c) ∷ (b'0' + d) ∷ [])
      ≡ some (h * 3600 + (a * 10 + b) * 60 + (c * 10 + d))
unfolding minutes_seconds
minutes_seconds_lem h a b c d ha hb hc hd le = ground arith

parse_two_digits :
    (x y n : ℕ) (rest : Text)
    → x < 10
    → y < 10
    → minutes_seconds (x * 10 + y) rest ≡ some n
    → parse_schedule_time ((b'0' + x) ∷ (b'0' + y) ∷ rest) ≡ some (some n)
unfolding parse_schedule_time
parse_two_digits x y n rest hx hy e =
    let p = digit_lem x hx in let q = digit_lem y hy in ground (arith, p, q, e)

-- Every time of a service day that a reply writes is read back as the same time.
pub parse-format :
    (n : ℕ) → n ≤ max_departure_seconds → parse_schedule_time (format_time n) ≡ some (some n)
unfolding format_time
parse-format n h =
    parse_two_digits (n / 3600 / 10) (n / 3600 % 10) n
      (b':' ∷ two_digits (n / 60 % 60) (b':' ∷ two_digits (n % 60) [])) (omega arith) (omega arith)
      (minutes_seconds_lem (n / 3600 / 10 * 10 + n / 3600 % 10) (n / 60 % 60 / 10)
          (n / 60 % 60 % 10) (n % 60 / 10) (n % 60 % 10) (omega arith) (omega arith) (omega arith)
          (omega arith) (omega arith)
        ∙ ap some (omega arith))
