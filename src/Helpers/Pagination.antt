-- ===== src/Helpers/Pagination.antt =====
-- Paging parameters (api/src/lib/pagination.ts), and the page that a listing shows.
pub mod Cover
use Prim.Native.String
use Prim.Native.Char.{Char, code}
use intern_logenhelfer_de.Base.{
  ℕ, zero, suc, ◌*◌, min, max, String, Bool, true, false, ◌&&◌, ◌||◌, Option, none, some, List, leb,
  ◌==◌, nat_eq, take, drop, if◌then◌else◌,
}
use intern_logenhelfer_de.Helpers.Decimal.{run_value}

abbrev pub default_per_page : ℕ
default_per_page = 25

abbrev pub min_per_page : ℕ
min_per_page = 1

abbrev pub max_per_page : ℕ
max_per_page = 100

abbrev pub default_page : ℕ
default_page = 0

pub record PageParams : Type 0 where
  pub page : ℕ
  pub per_page : ℕ

-- `negsuc n` is -(n + 1).
pub data ℤ : Type 0 where
  pos : ℕ → ℤ
  negsuc : ℕ → ℤ

abbrev pub neg : ℕ → ℤ
neg zero = pos 0
neg (suc n) = negsuc n

-- `\s`
abbrev pub is_space : Char → Bool
is_space c =
    let k = code c in
    leb 9 k && leb k 13
    || (k == 32
        || (k == 160
            || (k == 5760
                || (leb 8192 k && leb k 8202
                    || (k == 8232
                        || (k == 8233
                            || (k == 8239 || (k == 8287 || (k == 12_288 || k == 65_279)))))))))

abbrev pub skip_spaces : String → String
skip_spaces String.[] = ""
skip_spaces (String.◌∷◌ c s) =
    let rest = skip_spaces s in if is_space c then rest else String.◌∷◌ c s

-- `[-+]?\d+`: with no digit the match fails, and the value is 0 as well.
abbrev pub signed : String → ℤ
signed String.[] = pos 0
signed (String.◌∷◌ c s) =
    if code c == 45
    then neg (run_value 0 s)
    else if code c == 43
    then pos (run_value 0 s)
    else pos (run_value 0 (String.◌∷◌ c s))

-- On texts, as a query has them. Past 2 ^ 53 the code's number is the nearest float, here it is
-- exact.
unfoldable pub ruby_to_i : String → ℤ
ruby_to_i value = signed (skip_spaces value)

-- `Math.max(value, floor)`
abbrev pub at_least : ℤ → ℕ → ℕ
at_least (pos n) floor = max n floor
at_least (negsuc n) floor = floor

unfoldable pub clamp : ℤ → ℕ → ℕ → ℕ
clamp value lo hi = min (at_least value lo) hi

-- `ruby_to_i(raw ?? fallback)`
abbrev pub number_of : Option String → ℕ → ℤ
number_of none fallback = pos fallback
number_of (some value) fallback = ruby_to_i value

unfoldable pub parse_page_params : Option String → Option String → PageParams
unfolding ruby_to_i clamp
parse_page_params page per_page = record {
  page = at_least (number_of page default_page) 0;
  per_page = clamp (number_of per_page default_per_page) min_per_page max_per_page;
}

-- `skip: page * perPage, take: perPage`, on the rows that fit, in their order.
unfoldable pub page_of {ℓ} : {A : Type ℓ} → PageParams → List A → List A
page_of p rows = take p.per_page (drop (p.page * p.per_page) rows)
