-- ===== src/Clock.antt =====
-- Python's `datetime` as the scripts use it: a calendar time, its order as a count of seconds, and
-- `datetime.strptime(text, "%Y-%m-%dT%H:%M:%SZ")` on texts of the canonical width.
use latchway_android.Base.{
  ℕ, zero, suc, ◌+◌, ◌-◌, ◌*◌, ◌/◌, ◌%◌, Bool, true, not, List, [], ◌∷◌, ◌&&◌, ◌||◌, leb, eqb,
  Option, none, some, if◌then◌else◌,
}
use latchway_android.Regex.{CharClass}

-- `\d`: the characters of Unicode's category Nd, in runs of ten that begin with a zero.
abbrev pub decimal_digits : CharClass
decimal_digits =
    (48, 57)
    ∷ (1632, 1641)
    ∷ (1776, 1785)
    ∷ (1984, 1993)
    ∷ (2406, 2415)
    ∷ (2534, 2543)
    ∷ (2662, 2671)
    ∷ (2790, 2799)
    ∷ (2918, 2927)
    ∷ (3046, 3055)
    ∷ (3174, 3183)
    ∷ (3302, 3311)
    ∷ (3430, 3439)
    ∷ (3558, 3567)
    ∷ (3664, 3673)
    ∷ (3792, 3801)
    ∷ (3872, 3881)
    ∷ (4160, 4169)
    ∷ (4240, 4249)
    ∷ (6112, 6121)
    ∷ (6160, 6169)
    ∷ (6470, 6479)
    ∷ (6608, 6617)
    ∷ (6784, 6793)
    ∷ (6800, 6809)
    ∷ (6992, 7001)
    ∷ (7088, 7097)
    ∷ (7232, 7241)
    ∷ (7248, 7257)
    ∷ (42528, 42537)
    ∷ (43216, 43225)
    ∷ (43264, 43273)
    ∷ (43472, 43481)
    ∷ (43504, 43513)
    ∷ (43600, 43609)
    ∷ (44016, 44025)
    ∷ (65296, 65305)
    ∷ (66720, 66729)
    ∷ (68912, 68921)
    ∷ (69734, 69743)
    ∷ (69872, 69881)
    ∷ (69942, 69951)
    ∷ (70096, 70105)
    ∷ (70384, 70393)
    ∷ (70736, 70745)
    ∷ (70864, 70873)
    ∷ (71248, 71257)
    ∷ (71360, 71369)
    ∷ (71472, 71481)
    ∷ (71904, 71913)
    ∷ (72016, 72025)
    ∷ (72784, 72793)
    ∷ (73040, 73049)
    ∷ (73120, 73129)
    ∷ (92768, 92777)
    ∷ (92864, 92873)
    ∷ (93008, 93017)
    ∷ (120782, 120831)
    ∷ (123200, 123209)
    ∷ (123632, 123641)
    ∷ (125264, 125273)
    ∷ (130032, 130041)
    ∷ []

-- The value that `int` gives to a decimal digit.
unfoldable pub digit_value : CharClass → ℕ → Option ℕ
digit_value [] c = none
digit_value ((lo, hi) ∷ runs) c =
    if leb lo c && leb c hi then some ((c - lo) % 10) else digit_value runs c

abbrev digit : ℕ → Option ℕ
digit = digit_value decimal_digits

pub record DateTime : Type 0 where
  pub year : ℕ
  pub month : ℕ
  pub day : ℕ
  pub hour : ℕ
  pub minute : ℕ
  pub second : ℕ

unfoldable pub is_leap : ℕ → Bool
is_leap y = eqb (y % 4) 0 && (not (eqb (y % 100) 0) || eqb (y % 400) 0)

unfoldable pub days_in_month : ℕ → ℕ → ℕ
unfolding is_leap
days_in_month y m =
    if eqb m 2
    then (if is_leap y then 29 else 28)
    else (if eqb m 4 || eqb m 6 || eqb m 9 || eqb m 11 then 30 else 31)

-- The days of the first `m` months.
unfoldable pub days_of_months : ℕ → ℕ → ℕ
unfolding days_in_month
days_of_months y zero = 0
days_of_months y (suc m) = days_of_months y m + days_in_month y (suc m)

-- The days of the years 1 to `n`.
unfoldable pub days_of_years : ℕ → ℕ
days_of_years n = n * 365 + n / 4 - n / 100 + n / 400

-- Seconds since the beginning of year 1; `datetime` values are ordered and subtracted by it.
unfoldable pub instant : DateTime → ℕ
unfolding days_of_years days_of_months
instant t =
    (days_of_years (t.year - 1) + days_of_months t.year (t.month - 1) + (t.day - 1)) * 86400
    + t.hour * 3600
    + t.minute * 60
    + t.second

-- The `ValueError`s of the constructor `datetime`.
unfoldable pub in_calendar : DateTime → Bool
unfolding days_in_month
in_calendar t =
    leb 1 t.year
    && leb t.year 9999
    && leb 1 t.month
    && leb t.month 12
    && leb 1 t.day
    && leb t.day (days_in_month t.year t.month)
    && leb t.hour 23
    && leb t.minute 59
    && leb t.second 59

-- Two digits, of which the first must be ASCII and in a range and the second any decimal digit, as
-- the directives of `strptime` have it.
two_digits : (ℕ → Bool) → (ℕ → ℕ → Bool) → ℕ → ℕ → Option ℕ
unfolding digit_value
two_digits first second a b =
    if first a && second a b
    then elim (digit b) [ none ↦ none | some v ↦ some ((a - 48) * 10 + v) ]
    else none

abbrev within : ℕ → ℕ → ℕ → Bool
within lo hi c = leb lo c && leb c hi

-- `%m` is `1[0-2]|0[1-9]`, `%d` is `3[0-1]|[1-2]\d|0[1-9]`, `%H` is `2[0-3]|[0-1]\d`, `%M` is
-- `[0-5]\d`, `%S` is `6[0-1]|[0-5]\d`; the alternatives of one digit do not fit the width.
unfoldable pub month_field : ℕ → ℕ → Option ℕ
unfolding two_digits
month_field =
    two_digits (within b'0' b'1')
      (λ a b. if eqb a b'1' then within b'0' b'2' b else within b'1' b'9' b)

unfoldable pub day_field : ℕ → ℕ → Option ℕ
unfolding two_digits
day_field = two_digits (within b'0' b'3') λ a b.
    if eqb a b'3' then within b'0' b'1' b else (if eqb a b'0' then within b'1' b'9' b else true)

unfoldable pub hour_field : ℕ → ℕ → Option ℕ
unfolding two_digits
hour_field = two_digits (within b'0' b'2') (λ a b. if eqb a b'2' then within b'0' b'3' b else true)

unfoldable pub minute_field : ℕ → ℕ → Option ℕ
unfolding two_digits
minute_field = two_digits (within b'0' b'5') (λ a b. true)

unfoldable pub second_field : ℕ → ℕ → Option ℕ
unfolding two_digits
second_field =
    two_digits (within b'0' b'6') (λ a b. if eqb a b'6' then within b'0' b'1' b else true)

infixl 5 ◌>>=◌
abbrev ◌>>=◌ {ℓ κ} : {A : Type ℓ} {B : Type κ} → Option A → (A → Option B) → Option B
none >>= f = none
some a >>= f = f a

-- `strptime`, and the replacement of the time zone by UTC.
unfoldable pub strptime : List ℕ → Option DateTime
unfolding digit_value in_calendar month_field day_field hour_field minute_field second_field
strptime
      (y ∷ y' ∷ y'' ∷ y''' ∷ _ ∷ m ∷ m' ∷ _ ∷ d ∷ d' ∷ _ ∷ h ∷ h' ∷ _ ∷ i ∷ i' ∷ _ ∷ s ∷ s' ∷ _
        ∷ []) =
    do
      a ← digit y
      b ← digit y'
      c ← digit y''
      e ← digit y'''
      month ← month_field m m'
      day ← day_field d d'
      hour ← hour_field h h'
      minute ← minute_field i i'
      second ← second_field s s'
      let t : DateTime = record {
        year = a * 1000 + b * 100 + c * 10 + e;
        month = month;
        day = day;
        hour = hour;
        minute = minute;
        second = second;
      }
      if in_calendar t then some t else none
strptime _ = none
