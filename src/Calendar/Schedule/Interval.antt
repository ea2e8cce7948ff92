-- ===== src/Calendar/Schedule/Interval.antt =====
-- How often the calendars are read.
use intern_logenhelfer_de.Base.{
  ℕ, suc, zero, ◌≤◌, ◌<◌, ◌≡◌, ap, sym, ◌∙◌, String, false, ◌||◌, Option, some, ◌==◌, string_eq,
  eq_iff, arith, Bool-cases, inl, inr,
}
use intern_logenhelfer_de.Helpers.Pagination.{ℤ, pos, negsuc, ruby_to_i}
use intern_logenhelfer_de.Helpers.Pagination.Cover.{ruby_to_i-decimal}
use intern_logenhelfer_de.Routes.Params.{decimal}
use intern_logenhelfer_de.Calendar.Schedule.{
  resolve_interval_hours, interval_ms, start_ics_auto_sync, is_text,
}

abbrev magnitude : ℤ → ℕ
magnitude (pos n) = n
magnitude (negsuc n) = suc n

decimal-filled : (n : ℕ) → (decimal (suc n) == "") ≡ false
unfolding ruby_to_i
decimal-filled n = elim (Bool-cases (decimal (suc n) == "")) [
  | inr full ↦ full
  | inl blank ↦
      let none_there = (eq_iff (decimal (suc n)) "").0 blank in
      let read : ruby_to_i "" ≡ pos (suc n) =
        ap ruby_to_i (sym none_there) ∙ ruby_to_i-decimal (suc n) in
      let zero_there : 0 ≡ suc n = ap magnitude read in absurd (omega arith)
]

-- Outside of tests, with the hours written in decimal, the timer's period is that many hours exactly
-- where they are 596 at most; with more it is one millisecond.
pub start_ics_auto_sync_lem :
    (node_env ics_sync_disabled : Option String) (hours : ℕ)
    → 0 < hours
    → (is_text "test" node_env || is_text "true" ics_sync_disabled) ≡ false
    → let period = start_ics_auto_sync node_env ics_sync_disabled (some (decimal hours)) in
      (hours ≤ 596 → period ≡ some (interval_ms hours)) × (596 < hours → period ≡ some 1)
unfolding start_ics_auto_sync resolve_interval_hours
start_ics_auto_sync_lem node_env ics_sync_disabled zero positive free = absurd (omega arith)
start_ics_auto_sync_lem node_env ics_sync_disabled (suc n) positive free =
    let read = ruby_to_i-decimal (suc n) in
    (
      (λ few. rw (free, decimal-filled n, read) ground arith),
      (λ many. rw (free, decimal-filled n, read) ground arith),
    )
