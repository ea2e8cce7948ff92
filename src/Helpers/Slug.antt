-- ===== src/Helpers/Slug.antt =====
-- Slugs (api/src/lib/slug.ts).
pub mod Grammar
pub mod Unique
use Prim.Native.String
use Prim.Native.Char.{Char, code}
use intern_logenhelfer_de.Base.{
  ℕ, zero, suc, ◌+◌, String, Bool, true, false, not, ◌&&◌, ◌||◌, Option, none, some, leb, ◌==◌,
  nat_eq, string_eq, if◌then◌else◌,
}
use intern_logenhelfer_de.External.{External}
use intern_logenhelfer_de.Helpers.Decimal.{is_digit}
use intern_logenhelfer_de.Routes.Params.{decimal}

abbrev pub fallback_slug : String
fallback_slug = "n-a"

-- `[\u0300-\u036f]`
abbrev pub is_mark : Char → Bool
is_mark c = leb 768 (code c) && leb (code c) 879

abbrev pub remove_marks : String → String
remove_marks String.[] = ""
remove_marks (String.◌∷◌ c s) =
    let rest = remove_marks s in if is_mark c then rest else String.◌∷◌ c rest

-- `[a-z0-9]`
abbrev pub is_word : Char → Bool
is_word c = leb 97 (code c) && leb (code c) 122 || is_digit c

-- Each run of other characters becomes one dash; the flag says that the run has its dash already.
abbrev pub dash_runs : Bool → String → String
dash_runs in_run String.[] = ""
dash_runs in_run (String.◌∷◌ c s) =
    let rest = dash_runs (not (is_word c)) s in
    if is_word c then String.◌∷◌ c rest else if in_run then rest else String.◌++◌ "-" rest

-- `/^-+/`
abbrev pub trim_start : String → String
trim_start String.[] = ""
trim_start (String.◌∷◌ c s) =
    let rest = trim_start s in if code c == 45 then rest else String.◌∷◌ c s

abbrev pub is_empty : String → Bool
is_empty String.[] = true
is_empty (String.◌∷◌ c s) = false

-- `/-+$/`
abbrev pub trim_end : String → String
trim_end String.[] = ""
trim_end (String.◌∷◌ c s) =
    let rest = trim_end s in if code c == 45 && is_empty rest then "" else String.◌∷◌ c rest

unfoldable pub slugify : External → String → String
slugify x input =
    let base = trim_end (trim_start (dash_runs false (x.lower (remove_marks (x.nfkd input))))) in
    if is_empty base then fallback_slug else base

-- `${base}-${suffix}`
abbrev pub with_suffix : String → ℕ → String
with_suffix base suffix = String.◌++◌ base (String.◌++◌ "-" (decimal suffix))

-- One look-up in the table for each unit of fuel; `none` where the fuel is used up.
unfoldable pub next_free : ℕ → (String → Bool) → String → String → ℕ → Option String
next_free zero check_exists base candidate suffix = none
next_free (suc fuel) check_exists base candidate suffix =
    let again = next_free fuel check_exists base (with_suffix base (suffix + 1)) (suffix + 1) in
    if check_exists candidate then again else some candidate

unfoldable pub generate_unique_slug : External → ℕ → String → (String → Bool) → Option String
unfolding slugify next_free
generate_unique_slug x fuel input check_exists =
    let base = slugify x input in next_free fuel check_exists base base 1
