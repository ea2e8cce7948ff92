-- ===== src/Helpers/Slug/Unique.antt =====
-- The search for a free slug ends.
use Prim.Native.String
use text.Mathlib.TextLemmas.{cons-append, append-nil, append_cancel_left}
use intern_logenhelfer_de.Base.{
  ℕ, zero, suc, ◌+◌, ◌≤◌, ◌<◌, ◌≡◌, ◌≢◌, ◌⊎◌, refl, sym, ◌∙◌, String, Bool, true, false, some, List,
  [], ◌∷◌, ◌==◌, string_eq, eq_iff, ltb, ltb→lt, arith, any, length, if◌then◌else◌, Bool-cases, inl,
  inr,
}
use intern_logenhelfer_de.External.{External}
use intern_logenhelfer_de.Helpers.Decimal.{decimal_inj}
use intern_logenhelfer_de.Helpers.Slug.{slugify, with_suffix, next_free, generate_unique_slug}
use intern_logenhelfer_de.Routes.Params.{decimal}

-- The slugs that are tried, in order.
abbrev pub candidate : String → ℕ → String
candidate base zero = base
candidate base (suc i) = with_suffix base (suc i + 1)

-- The table's look-up.
abbrev pub is_taken : List String → String → Bool
is_taken taken slug = any (λ t. t == slug) taken

with_suffix-ne : (base : String) (k : ℕ) → with_suffix base k ≢ base
with_suffix-ne base k e =
    let blank =
      append_cancel_left base (String.◌++◌ "-" (decimal k)) "" (e ∙ sym (append-nil base)) in
    let shown = sym (cons-append "-" "" (decimal k)) ∙ blank in cc shown

with_suffix_inj : (base : String) (j k : ℕ) → with_suffix base j ≡ with_suffix base k → j ≡ k
with_suffix_inj base j k e = decimal_inj j k (
    append_cancel_left "-" (decimal j) (decimal k)
      (append_cancel_left base (String.◌++◌ "-" (decimal j)) (String.◌++◌ "-" (decimal k)) e))

candidate_inj : (base : String) (i j : ℕ) → candidate base i ≡ candidate base j → i ≡ j
candidate_inj base zero zero e = refl
candidate_inj base zero (suc j) e = absurd (with_suffix-ne base (suc j + 1) (sym e))
candidate_inj base (suc i) zero e = absurd (with_suffix-ne base (suc i + 1) e)
candidate_inj base (suc i) (suc j) e = omega (arith, with_suffix_inj base (suc i + 1) (suc j + 1) e)

abbrev remove : String → List String → List String
remove slug [] = []
remove slug (t ∷ taken) = if t == slug then taken else t ∷ remove slug taken

length-remove :
    (slug : String) (taken : List String)
    → is_taken taken slug ≡ true
    → length (remove slug taken) + 1 ≡ length taken
length-remove slug [] h = cc
length-remove slug (t ∷ taken) h = ground (arith, length-remove slug taken)

is_taken-remove :
    (slug other : String) (taken : List String)
    → other ≢ slug
    → is_taken taken other ≡ true
    → is_taken (remove slug taken) other ≡ true
is_taken-remove slug other [] ne h = cc
is_taken-remove slug other (t ∷ taken) ne h =
    ground (arith, eq_iff t slug, eq_iff t other, is_taken-remove slug other taken)

-- Different slugs that are all taken are no more than the rows.
crowd :
    (base : String) (n : ℕ) (taken : List String)
    → ((i : ℕ) → i < n → is_taken taken (candidate base i) ≡ true)
    → n ≤ length taken
crowd base zero taken h = omega arith
crowd base (suc n) taken h =
    let last = candidate base n in
    let rest : n ≤ length (remove last taken) = crowd base n (remove last taken) (λ i lt.
      is_taken-remove last (candidate base i) taken
        (λ e. absurd (omega (arith, candidate_inj base i n e))) (h i (omega arith))) in
    omega (arith, length-remove last taken (h n (omega arith)), rest)

-- The first number below `n` that a test refuses, or none.
abbrev pub IsFirst : (ℕ → Bool) → ℕ → Type 0
IsFirst p j = (p j ≡ false) × ((k : ℕ) → k < j → p k ≡ true)

extend :
    (p : ℕ → Bool) (n : ℕ)
    → ((k : ℕ) → k < n → p k ≡ true)
    → p n ≡ true
    → (k : ℕ) → k < suc n
    → p k ≡ true
extend p n below last k h = elim (Bool-cases (ltb k n)) [
  | inl lt ↦ below k (ltb→lt k n lt)
  | inr ge ↦ let same : k ≡ n = ground arith in rw same last
]

IsFirst-below :
    (p : ℕ → Bool) (n : ℕ) → ((j : ℕ) × (j < n) × IsFirst p j) ⊎ ((k : ℕ) → k < n → p k ≡ true)
IsFirst-below p zero = inr (λ k h. absurd (omega arith))
IsFirst-below p (suc n) = elim (IsFirst-below p n) [
  | inl (j, h, first) ↦ inl (j, omega arith, first)
  | inr below ↦ elim (Bool-cases (p n)) [
    | inr free ↦ inl (n, omega arith, (free, below))
    | inl taken ↦ inr (λ k h. extend p n below taken k h)
  ]
]

next_free_lem :
    (p : String → Bool) (base : String) (d fuel i j : ℕ)
    → i + d ≡ j
    → d < fuel
    → IsFirst (λ k. p (candidate base k)) j
    → next_free fuel p base (candidate base i) (i + 1) ≡ some (candidate base j)
unfolding next_free
next_free_lem p base d zero i j e h first = absurd (omega arith)
next_free_lem p base zero (suc fuel) i j e h (free, earlier) =
    let same : i ≡ j = omega arith in rw (same, free) refl
next_free_lem p base (suc d) (suc fuel) i j e h (free, earlier) =
    let rest = next_free_lem p base d fuel (suc i) j (omega arith) (omega arith) (free, earlier) in
    let step : i + 1 ≡ suc i = omega arith in rw (earlier i (omega arith), step) rest

-- With one look-up more than there are rows the search has ended: with the first of the slug and its
-- numbered variants that no row has.
pub generate_unique_slug_lem :
    (x : External) (input : String) (taken : List String)
    → let base = slugify x input in
      (j : ℕ) × (generate_unique_slug x (suc (length taken)) input (is_taken taken)
        ≡ some (candidate base j))
      × (is_taken taken (candidate base j) ≡ false)
      × ((k : ℕ) → k < j → is_taken taken (candidate base k) ≡ true)
unfolding generate_unique_slug
generate_unique_slug_lem x input taken =
    let base = slugify x input in
    elim (IsFirst-below (λ k. is_taken taken (candidate base k)) (suc (length taken))) [
      | inl (j, h, first) ↦ (
        j,
        next_free_lem (is_taken taken) base j (suc (length taken)) 0 j (omega arith) h first,
        first.0,
        first.1,
      )
      | inr all ↦ absurd (omega (arith, crowd base (suc (length taken)) taken all))
    ]
