-- ===== src/Utils/Logger/Stamp.antt =====
-- The time stamp of a log line, `now_local_iso8601` of utils/Logger.cpp. The local time, which
-- `localtime_r` gives, and the milliseconds since the epoch are arguments.
use arcraven_ugv_core.Common.{
  ℕ, ◌+◌, ◌-◌, ◌*◌, ◌/◌, ◌%◌, ◌<◌, ◌≡◌, refl, ap, ◌∙◌, [], ◌∷◌, ◌++◌, Option, some, Bytes, length,
  length-append, drop, take, drop-append, arith,
}
use arcraven_ugv_core.Command.Types.{U64}
use arcraven_ugv_core.Stdlib.Decimal.{decimal, sto}
use arcraven_ugv_core.Stdlib.Decimal.RoundTrip.{sto-decimal}

-- `std::tm`, as far as the format reads it.
pub record LocalTime : Type 0 where
  pub tm_year : ℕ  -- since 1900
  pub tm_mon : ℕ  -- from 0
  pub tm_mday : ℕ
  pub tm_hour : ℕ
  pub tm_min : ℕ
  pub tm_sec : ℕ

abbrev pub digit : ℕ → ℕ
digit n = n % 10 + b'0'

-- `%m`, `%d`, `%H`, `%M` and `%S`.
abbrev pub two_digits : ℕ → Bytes
two_digits n = digit (n / 10) ∷ digit n ∷ []

-- `std::setw(3) << std::setfill('0')`, of a number below 1000.
abbrev pub three_digits : ℕ → Bytes
three_digits n = digit (n / 100) ∷ digit (n / 10) ∷ digit n ∷ []

abbrev pub behind_year : LocalTime → ℕ → Bytes
behind_year tm ms =
    b'-'
    ∷ (two_digits (tm.tm_mon + 1)
        ++ (b'-'
            ∷ (two_digits tm.tm_mday
                ++ (b' '
                    ∷ (two_digits tm.tm_hour
                        ++ (b':'
                            ∷ (two_digits tm.tm_min
                                ++ (b':'
                                    ∷ (two_digits tm.tm_sec ++ (b'.' ∷ three_digits ms))))))))))

unfoldable pub now_local_iso8601 : LocalTime → ℕ → Bytes
now_local_iso8601 tm since_epoch_ms =
    decimal (tm.tm_year + 1900) ++ behind_year tm (since_epoch_ms % 1000)

-- A time as the C library gives it; second 60 is a leap second.
pub record IsLocalTime (tm : LocalTime) : Type 0 where
  pub year : tm.tm_year < 1000000
  pub mon : tm.tm_mon < 12
  pub mday : tm.tm_mday < 32
  pub hour : tm.tm_hour < 24
  pub min : tm.tm_min < 60
  pub sec : tm.tm_sec < 61

abbrev number : ℕ → ℕ → ℕ
number tens ones = (tens - b'0') * 10 + (ones - b'0')

-- What stands behind the year, and the milliseconds.
pub read_fields : Bytes → (ℕ × ℕ × ℕ) × (ℕ × ℕ × ℕ)
read_fields
      (c0 ∷ m1 ∷ m0 ∷ c1 ∷ d1 ∷ d0 ∷ c2 ∷ h1 ∷ h0 ∷ c3 ∷ i1 ∷ i0 ∷ c4 ∷ s1 ∷ s0 ∷ c5 ∷ f2 ∷ f1 ∷ f0
        ∷ []) =
    (
      (number m1 m0, number d1 d0, number h1 h0),
      (number i1 i0, number s1 s0, (f2 - b'0') * 100 + number f1 f0),
    )
read_fields s = ((0, 0, 0), (0, 0, 0))

-- Everything but the last nineteen characters is the year.
unfoldable pub read_stamp : Bytes → Option ℕ × ((ℕ × ℕ × ℕ) × (ℕ × ℕ × ℕ))
read_stamp s = (sto U64 (take (length s - 19) s), read_fields (drop (length s - 19) s))

two_digits-number : (n : ℕ) → n < 100 → number (digit (n / 10)) (digit n) ≡ n
two_digits-number n h = omega arith

three_digits-number :
    (n : ℕ) → n < 1000 → (digit (n / 100) - b'0') * 100 + number (digit (n / 10)) (digit n) ≡ n
three_digits-number n h = omega arith

take-append : (xs ys : Bytes) → take (length xs) (xs ++ ys) ≡ xs
take-append [] ys = refl
take-append (x ∷ xs) ys = ap (λ s. x ∷ s) (take-append xs ys)

-- The stamp of a time that the C library gives tells that time to the millisecond: its year, and
-- behind it the month, the day, the hour, the minute, the second and the milliseconds.
pub read_stamp-now_local_iso8601 :
    (tm : LocalTime) (since_epoch_ms : ℕ)
    → IsLocalTime tm
    → read_stamp (now_local_iso8601 tm since_epoch_ms) ≡ (
      some (tm.tm_year + 1900),
      ((tm.tm_mon + 1, tm.tm_mday, tm.tm_hour), (tm.tm_min, tm.tm_sec, since_epoch_ms % 1000)),
    )
unfolding read_stamp now_local_iso8601 read_fields
read_stamp-now_local_iso8601 tm e h =
    let ms = e % 1000 in
    let year = decimal (tm.tm_year + 1900) in
    let text = year ++ behind_year tm ms in
    let at_year : length text - 19 ≡ length year =
      omega (arith, length-append year (behind_year tm ms)) in
    let a = two_digits-number (tm.tm_mon + 1) (omega (arith, h.mon)) in
    let b = two_digits-number tm.tm_mday (omega (arith, h.mday)) in
    let c = two_digits-number tm.tm_hour (omega (arith, h.hour)) in
    let d = two_digits-number tm.tm_min (omega (arith, h.min)) in
    let s = two_digits-number tm.tm_sec (omega (arith, h.sec)) in
    let f = three_digits-number ms (omega arith) in
    ap (λ n. (sto U64 (take n text), read_fields (drop n text))) at_year
    ∙ ap (λ y. (sto U64 y, read_fields (drop (length year) text)))
        (take-append year (behind_year tm ms))
    ∙ ap (λ t. (sto U64 year, read_fields t)) (drop-append year (behind_year tm ms))
    ∙ ap (λ y. (y, read_fields (behind_year tm ms)))
        (sto-decimal U64 (tm.tm_year + 1900) (omega (arith, h.year)) (omega (arith, h.year)))
    ∙ rw (a, b, c, d, s, f) refl
