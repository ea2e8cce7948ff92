-- ===== src/Helpers/Slug/Grammar.antt =====
-- The form of a slug.
use Prim.Native.Char.{code}
use text.Mathlib.TextLemmas.{nil-append, cons-append}
use intern_logenhelfer_de.Base.{
  ◌≡◌, refl, ◌||◌, inl, inr, String, Bool, true, false, not, ◌&&◌, ◌==◌, nat_eq, arith,
  if◌then◌else◌, Bool-cases, inl,
}
use intern_logenhelfer_de.Helpers.Slug.{
  dash_runs, is_word, trim_start, is_empty, trim_end, slugify, External, remove_marks,
}

-- Words of small letters and digits, one dash between two of them. The flag says that a word has to
-- start here.
abbrev pub is_words : Bool → String → Bool
is_words start String.[] = not start
is_words start (String.◌∷◌ c s) =
    if code c == 45 then not start && is_words true s else is_word c && is_words false s

-- The same, except that a dash may end the text: what the replacement of runs leaves.
abbrev is_draft : Bool → String → Bool
is_draft start String.[] = true
is_draft start (String.◌∷◌ c s) =
    if code c == 45 then not start && is_draft true s else is_word c && is_draft false s

dash_runs-is_draft : (in_run : Bool) (s : String) → is_draft in_run (dash_runs in_run s) ≡ true
dash_runs-is_draft in_run String.[] = refl
dash_runs-is_draft in_run (String.◌∷◌ c s) = ground (
  arith,
  dash_runs-is_draft true s,
  dash_runs-is_draft false s,
  cons-append "-" "" (dash_runs true s),
  nil-append (dash_runs true s),
)

trim_start-draft : (s : String) → is_draft true s ≡ true → is_draft true (trim_start s) ≡ true
trim_start-draft String.[] h = refl
trim_start-draft (String.◌∷◌ c s) h = ground arith

trim_start-is_draft : (s : String) → is_draft false s ≡ true → is_draft true (trim_start s) ≡ true
trim_start-is_draft String.[] h = refl
trim_start-is_draft (String.◌∷◌ c s) h = elim (Bool-cases (code c == 45)) [
  | inl dash ↦ rw dash (trim_start-draft s (ground arith))
  | inr other ↦ ground arith
]

-- What is empty, or in the grammar.
abbrev Fits : Bool → String → Type 0
Fits start s = (is_empty s || is_words start s) ≡ true

is_words-empty : (s : String) → Fits false s → is_words false s ≡ true
is_words-empty String.[] h = refl
is_words-empty (String.◌∷◌ c s) h = h

trim_end-Fits : (start : Bool) (s : String) → is_draft start s ≡ true → Fits start (trim_end s)
trim_end-Fits start String.[] h = refl
trim_end-Fits start (String.◌∷◌ c s) h = elim (Bool-cases (code c == 45)) [
  | inl dash ↦
      let rest = trim_end-Fits true s (ground arith) in
      elim (Bool-cases (is_empty (trim_end s))) [
        | inl blank ↦ rw (dash, blank) refl
        | inr kept ↦ ground arith
      ]
  | inr word ↦
      let rest = is_words-empty (trim_end s) (trim_end-Fits false s (ground arith)) in ground arith
]

-- A slug has small letters, digits and dashes alone, starts and ends with a letter or a digit, and
-- never has two dashes side by side; for every title, also for one with no letter in it.
pub slugify-is_words : (x : External) (input : String) → is_words true (slugify x input) ≡ true
unfolding slugify
slugify-is_words x input =
    let folded = x.lower (remove_marks (x.nfkd input)) in
    let base = trim_end (trim_start (dash_runs false folded)) in
    let fits =
      trim_end-Fits true (trim_start (dash_runs false folded))
        (trim_start-is_draft (dash_runs false folded) (dash_runs-is_draft false folded)) in
    elim (Bool-cases (is_empty base)) [
      | inl blank ↦ rw blank refl
      | inr kept ↦ rw kept (ground arith)
    ]
