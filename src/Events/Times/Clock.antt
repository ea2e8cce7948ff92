-- ===== src/Events/Times/Clock.antt =====
-- Times of day, written and read back.
use Prim.Native.String
use text.Mathlib.TextLemmas.{nil-append, cons-append}
use intern_logenhelfer_de.Base.{
  ℕ, zero, suc, ◌/◌, ◌%◌, ◌<◌, ◌≡◌, ◌↔◌, refl, ap, sym, ◌∙◌, String, Bool, true, false, ◌&&◌,
  Option, none, some, ◌==◌, nat_eq, nat_beq_iff, eq_iff, string_eq, arith, Bool-cases, Option-cases,
  inl, inr, subst,
}
use intern_logenhelfer_de.External.{External}
use intern_logenhelfer_de.Routes.Params.{decimal}
use intern_logenhelfer_de.Events.Times.{
  string, two_digits, after, match_seconds, match_time, utc_time, parse_time_input, pad_start,
  clock_text, format_time,
}

-- A test of all numbers below a bound, run by computation.
abbrev holds_below : (ℕ → Bool) → ℕ → Bool
holds_below p zero = true
holds_below p (suc k) = p k && holds_below p k

holds_below-each : (p : ℕ → Bool) (k n : ℕ) → holds_below p k ≡ true → n < k → p n ≡ true
holds_below-each p zero n all h = absurd (omega arith)
holds_below-each p (suc k) n all h = elim (Bool-cases (n == k)) [
  | inl same ↦
      let e = (nat_beq_iff n k).0 same in
      let top : p k ≡ true = ground arith in subst (λ m. p m ≡ true) (sym e) top
  | inr other ↦ holds_below-each p k n (ground arith) (ground (arith, nat_beq_iff n k))
]

-- Whether the two digits of a number are read back as the number.
abbrev is_read : ℕ → Bool
is_read n = elim (two_digits (pad_start (decimal n))) [
  | none ↦ false
  | some (v, rest) ↦ v == n && rest == ""
]

two_digits-append :
    (s t r : String) (n : ℕ)
    → two_digits s ≡ some (n, r)
    → two_digits (String.◌++◌ s t) ≡ some (n, String.◌++◌ r t)
two_digits-append String.[] t r n h = cc
two_digits-append (String.◌∷◌ c String.[]) t r n h = cc
two_digits-append (String.◌∷◌ c (String.◌∷◌ d s)) t r n h =
    rw (cons-append c (String.◌∷◌ d s) t, cons-append d s t) (ground arith)

pad_start-two_digits : (n : ℕ) → n < 100 → two_digits (pad_start (decimal n)) ≡ some (n, "")
pad_start-two_digits n h =
    let each = holds_below-each is_read 100 n refl h in
    elim (Option-cases (two_digits (pad_start (decimal n)))) [
      | inl unread ↦ absurd (ground (arith, unread))
      | inr ((v, rest), read) ↦
          let fits : (v == n && rest == "") ≡ true = rw (read, is_read) at each in
          let same = (nat_beq_iff v n).0 (ground arith) in
          let blank = (eq_iff rest "").0 (ground arith) in read ∙ rw (same, blank) refl
    ]

two_digits-pad_start :
    (n : ℕ) (t : String)
    → n < 100
    → two_digits (String.◌++◌ (pad_start (decimal n)) t) ≡ some (n, t)
two_digits-pad_start n t h =
    two_digits-append (pad_start (decimal n)) t "" n (pad_start-two_digits n h)
    ∙ rw (nil-append t) refl

colon : (t : String) → after 58 (String.◌++◌ ":" t) ≡ some t
colon t = rw (cons-append ":" "" t, nil-append t) refl

match_time-clock_text :
    (hh mm : ℕ) → hh < 100 → mm < 100 → match_time (clock_text hh mm) ≡ some (hh, (mm, 0))
unfolding match_time match_seconds
match_time-clock_text hh mm h m =
    let minutes = pad_start (decimal mm) in
    rw
      (
        two_digits-pad_start hh (String.◌++◌ ":" minutes) h,
        match_time,
        colon minutes,
        pad_start-two_digits mm m,
      )
      refl

filled : (hh mm : ℕ) → hh < 100 → (clock_text hh mm == "") ≡ false
filled hh mm h = elim (Bool-cases (clock_text hh mm == "")) [
  | inr full ↦ full
  | inl blank ↦
      let none_there = (eq_iff (clock_text hh mm) "").0 blank in
      let read = two_digits-pad_start hh (String.◌++◌ ":" (pad_start (decimal mm))) h in
      let gone : two_digits "" ≡ some (hh, String.◌++◌ ":" (pad_start (decimal mm))) =
        rw none_there at read in
      cc
]

abbrev text_or_blank : Option String → String
text_or_blank none = ""
text_or_blank (some t) = t

abbrev hours_of : Option (ℕ × (ℕ × ℕ)) → ℕ
hours_of none = 0
hours_of (some time) = time.0

abbrev minutes_of : Option (ℕ × (ℕ × ℕ)) → ℕ
minutes_of none = 0
minutes_of (some (hh, (mm, ss))) = mm

-- A time of two digits for the hours and two for the minutes is taken, whatever the digits; what is
-- shown of it afterwards is the text that was written exactly where the hours are below 24 and the
-- minutes below 60.
pub parse_time_input-format_time :
    (x : External) (hh mm : ℕ)
    → hh < 100
    → mm < 100
    → x.trim (clock_text hh mm) ≡ clock_text hh mm
    → let time = utc_time (hh, (mm, 0)) in
      (parse_time_input x (string (clock_text hh mm)) ≡ some (some time))
      × ((format_time (some time) ≡ some (clock_text hh mm)) ↔ ((hh < 24) × (mm < 60)))
unfolding parse_time_input format_time
parse_time_input-format_time x hh mm h m clean =
    let t = utc_time (hh, (mm, 0)) in
    let hours = t / 3_600_000 % 24 in
    let minutes = t / 60_000 % 60 in
    (
      rw (clean, filled hh mm h, match_time-clock_text hh mm h m) refl,
      (
        (λ shown.
            let texts : clock_text hours minutes ≡ clock_text hh mm = ap text_or_blank shown in
            let same : some (hours, (minutes, 0)) ≡ some (hh, (mm, 0)) =
              sym (match_time-clock_text hours minutes (omega arith) (omega arith))
              ∙ ap match_time texts
              ∙ match_time-clock_text hh mm h m in
            let first : hours ≡ hh = ap hours_of same in
            let second : minutes ≡ mm = ap minutes_of same in (omega arith, omega arith)),
        (λ (day, hour).
            let first : hours ≡ hh = omega arith in
            let second : minutes ≡ mm = omega arith in rw (first, second) refl),
      ),
    )
