-- ===== src/Events/Times.antt =====
-- Dates and times of events, as requests write them and replies show them: `parseDateOnlyParam`,
-- `parseTimeInput` and `formatTime`, which events.ts and externalEvents.ts both have.
pub mod Clock
use Prim.Native.String
use Prim.Native.Char.{Char, code}
use intern_logenhelfer_de.Base.{
  ℕ, zero, suc, ◌+◌, ◌-◌, ◌*◌, ◌/◌, ◌%◌, String, Bool, true, false, not, ◌&&◌, ◌||◌, Option, none,
  some, leb, ltb, ◌==◌, nat_eq, string_eq, if◌then◌else◌,
}
use intern_logenhelfer_de.External.{External}
use intern_logenhelfer_de.Helpers.Decimal.{is_digit}
use intern_logenhelfer_de.Routes.Params.{decimal}

-- A field of a request's body; `other` stands for numbers, lists and objects, by their `String(…)`.
pub data BodyValue : Type 0 where
  absent null : BodyValue
  string : String → BodyValue
  flag : Bool → BodyValue
  other : String → BodyValue

-- `\d{2}` at the front: the number and the rest.
abbrev pub two_digits : String → Option (ℕ × String)
two_digits (String.◌∷◌ c (String.◌∷◌ d s)) =
    if is_digit c && is_digit d then some ((code c - 48) * 10 + (code d - 48), s) else none
two_digits _ = none

-- One given character at the front.
abbrev pub after : ℕ → String → Option String
after k (String.◌∷◌ c s) = if code c == k then some s else none
after k _ = none

abbrev pub at_end {ℓ} : {A : Type ℓ} → A → String → Option A
at_end a String.[] = some a
at_end a (String.◌∷◌ c s) = none

-- `(?::(\d{2}))?$`, the seconds with their colon.
unfoldable pub match_seconds : ℕ → ℕ → String → Option (ℕ × (ℕ × ℕ))
match_seconds hh mm String.[] = some (hh, (mm, 0))
match_seconds hh mm (String.◌∷◌ c s) = elim (after 58 (String.◌∷◌ c s)) [
  | none ↦ none
  | some s1 ↦ elim (two_digits s1) [ none ↦ none | some (ss, s2) ↦ at_end (hh, (mm, ss)) s2 ]
]

-- `/^(\d{2}):(\d{2})(?::(\d{2}))?$/`
unfoldable pub match_time : String → Option (ℕ × (ℕ × ℕ))
unfolding match_seconds
match_time t = elim (two_digits t) [
  | none ↦ none
  | some (hh, s1) ↦ elim (after 58 s1) [
    | none ↦ none
    | some s2 ↦ elim (two_digits s2) [ none ↦ none | some (mm, s3) ↦ match_seconds hh mm s3 ]
  ]
]

-- `Date.UTC(1970, 0, 1, hh, mm, ss)`: what is beyond an hour, a minute or a day is carried on.
abbrev pub utc_time : ℕ × (ℕ × ℕ) → ℕ
utc_time (hh, (mm, ss)) = ((hh * 60 + mm) * 60 + ss) * 1000

-- `none` for `undefined`, `some none` for `null`.
unfoldable pub parse_time_input : External → BodyValue → Option (Option ℕ)
unfolding match_time
parse_time_input x absent = none
parse_time_input x (string t) =
    if x.trim t == ""
    then some none
    else some (elim (match_time (x.trim t)) [ none ↦ none | some time ↦ some (utc_time time) ])
parse_time_input x _ = some none

-- `padStart(2, '0')`
abbrev pub pad_start : String → String
pad_start String.[] = "00"
pad_start (String.◌∷◌ c String.[]) = String.◌++◌ "0" (String.◌∷◌ c "")
pad_start (String.◌∷◌ c (String.◌∷◌ d s)) = String.◌∷◌ c (String.◌∷◌ d s)

abbrev pub clock_text : ℕ → ℕ → String
clock_text hh mm = String.◌++◌ (pad_start (decimal hh)) (String.◌++◌ ":" (pad_start (decimal mm)))

-- The hours and the minutes of the day.
unfoldable pub format_time : Option ℕ → Option String
format_time none = none
format_time (some t) = some (clock_text (t / 3_600_000 % 24) (t / 60_000 % 60))

-- `\d{4}-\d{2}-\d{2}`
unfoldable pub match_date : String → Option (ℕ × (ℕ × ℕ))
match_date t = elim (two_digits t) [
  | none ↦ none
  | some (century, s1) ↦ elim (two_digits s1) [
    | none ↦ none
    | some (yy, s2) ↦ elim (after 45 s2) [
      | none ↦ none
      | some s3 ↦ elim (two_digits s3) [
        | none ↦ none
        | some (mm, s4) ↦ elim (after 45 s4) [
          | none ↦ none
          | some s5 ↦ elim (two_digits s5) [
            | none ↦ none
            | some (dd, s6) ↦ at_end (century * 100 + yy, (mm, dd)) s6
          ]
        ]
      ]
    ]
  ]
]

abbrev pub is_leap : ℕ → Bool
is_leap y = y % 4 == 0 && (not (y % 100 == 0) || y % 400 == 0)

-- The days of a common year before its month, counted from 0; March to July and August to December
-- have 153 days each.
abbrev pub days_before_month : ℕ → ℕ
days_before_month zero = 0
days_before_month (suc zero) = 31
days_before_month (suc (suc zero)) = 59
days_before_month (suc (suc (suc m))) = 59 + (m * 153 + 155) / 5

abbrev pub leap_day : Bool → ℕ → ℕ
leap_day leap m = if leap && leb 2 m then 1 else 0

-- The days before a year, from the year 0 on.
abbrev pub days_before_year : ℕ → ℕ
days_before_year y = (365 * y + (y + 3) / 4 + (y + 399) / 400) - (y + 99) / 100

-- `Date.UTC(y, m - 1, d)`, as the days from the first of January of the year 0: a year below 100
-- counts from 1900, and a month or a day beyond its range is carried on.
unfoldable pub utc_date : ℕ × (ℕ × ℕ) → ℕ
utc_date (y, (mm, dd)) =
    let year = (if ltb y 100 then 1900 + y else y) + (mm + 11) / 12 - 1 in
    let month = (mm + 11) % 12 in
    (days_before_year year + days_before_month month + leap_day (is_leap year) month + dd) - 1

-- A text of another form counts as none. A list, of which the code would read the first text, is not
-- told apart from a number.
unfoldable pub parse_date_only_param : External → BodyValue → Option ℕ
unfolding match_date utc_date
parse_date_only_param x (string t) = elim (match_date (x.trim t)) [
  | none ↦ none
  | some d ↦ some (utc_date d)
]
parse_date_only_param x _ = none
