-- ===== src/Helpers/Pagination/Cover.antt =====
-- The pages of a listing are its rows, each once and in order.

use intern_logenhelfer_de.Base.{
  ℕ, zero, suc, ◌+◌, ◌*◌, ◌≤◌, ◌≡◌, refl, ap, ◌∙◌, arith, max, String, true, Option, none, some,
  List, [], ◌∷◌, ◌++◌, nat_eq, take, drop, length,
}
use native.Mathlib.Nat.{zero-add, suc-add, zero-mul}
use intern_logenhelfer_de.Routes.Params.{decimal}
use intern_logenhelfer_de.Helpers.Decimal.{run_value, decimal-run_value, all_digits, decimal-digits}
use intern_logenhelfer_de.Helpers.Pagination.{
  ℤ, pos, negsuc, parse_page_params, page_of, ruby_to_i, skip_spaces, signed, clamp, number_of,
  default_per_page,
}

skip_spaces-digits : (s : String) → all_digits s ≡ true → skip_spaces s ≡ s
skip_spaces-digits String.[] h = refl
skip_spaces-digits (String.◌∷◌ c s) h = ground arith

signed-digits : (s : String) → all_digits s ≡ true → signed s ≡ pos (run_value 0 s)
signed-digits String.[] h = refl
signed-digits (String.◌∷◌ c s) h = ground arith

-- A number in decimal is read as that number.
pub ruby_to_i-decimal : (n : ℕ) → ruby_to_i (decimal n) ≡ pos n
unfolding ruby_to_i
ruby_to_i-decimal n =
    ap signed (skip_spaces-digits (decimal n) (decimal-digits n))
    ∙ signed-digits (decimal n) (decimal-digits n)
    ∙ ap pos (decimal-run_value n)

clamp_bounds : (value : ℤ) → (1 ≤ clamp value 1 100) × (clamp value 1 100 ≤ 100)
unfolding clamp
clamp_bounds (pos n) = omega arith
clamp_bounds (negsuc n) = omega arith

abbrev pub size : Option String → ℕ
size per_page = (parse_page_params none per_page).per_page

module _ {ℓ} {A : Type ℓ} where
  drop-nil : (n : ℕ) → drop {A = A} n [] ≡ []
  drop-nil zero = refl
  drop-nil (suc n) = refl

  take-nil : (n : ℕ) → take {A = A} n [] ≡ []
  take-nil zero = refl
  take-nil (suc n) = refl

  take-append-drop : (m n : ℕ) (xs : List A) → take m xs ++ take n (drop m xs) ≡ take (m + n) xs
  take-append-drop zero n xs = rw (zero-add n) refl
  take-append-drop (suc m) n [] = rw (suc-add m n) (take-nil n)
  take-append-drop (suc m) n (x ∷ xs) = rw (suc-add m n) (ap (λ l. x ∷ l) (take-append-drop m n xs))

  take-all : (n : ℕ) (xs : List A) → length xs ≤ n → take n xs ≡ xs
  take-all zero [] h = refl
  take-all zero (x ∷ xs) h = absurd (omega arith)
  take-all (suc n) [] h = refl
  take-all (suc n) (x ∷ xs) h = ap (λ l. x ∷ l) (take-all n xs (omega arith))

  -- The first `k` pages that a client asks for, one after the other, with the number of each in
  -- decimal.
  abbrev pub pages : Option String → List A → ℕ → List A
  pages per_page rows zero = []
  pages per_page rows (suc k) =
      pages per_page rows k ++ page_of (parse_page_params (some (decimal k)) per_page) rows

  page_of-decimal :
      (per_page : Option String) (k : ℕ) (rows : List A)
      → page_of (parse_page_params (some (decimal k)) per_page) rows
        ≡ take (size per_page) (drop (k * size per_page) rows)
  unfolding page_of parse_page_params
  page_of-decimal per_page k rows =
      let kept : max k 0 ≡ k = omega arith in
      rw (ruby_to_i-decimal k)
        (ap (λ (i : ℕ). take (size per_page) (drop (i * size per_page) rows)) kept)

  pages-take :
      (per_page : Option String) (k : ℕ) (rows : List A)
      → pages per_page rows k ≡ take (k * size per_page) rows
  pages-take per_page zero rows = rw (zero-mul (size per_page)) refl
  pages-take per_page (suc k) rows =
      let n = size per_page in
      rw (pages-take per_page k rows, page_of-decimal per_page k rows)
        (take-append-drop (k * n) n rows ∙ ap (λ m. take m rows) (omega arith))

  -- A page has between one row and a hundred, whatever the client asks for, and the first `k` pages,
  -- asked for by their numbers, are together the rows that are listed, each once and in their order,
  -- as soon as `k` pages have room for all rows.
  pub pages_cover :
      (per_page : Option String) (k : ℕ) (rows : List A)
      → length rows ≤ k * size per_page
      → (1 ≤ size per_page) × (size per_page ≤ 100) × (pages per_page rows k ≡ rows)
  unfolding parse_page_params
  pages_cover per_page k rows h =
      let (lower, upper) = clamp_bounds (number_of per_page default_per_page) in
      (lower, upper, pages-take per_page k rows ∙ take-all (k * size per_page) rows h)
