-- ===== src/Base/Lists.antt =====
-- Lists as database tables and as JavaScript arrays.
use Prim.Native.Nat.{ℕ, zero, suc, ◌+◌}
use mathlib.Core.Path.{◌≡◌, refl, ap}
use mathlib.Core.Bool.{Bool, true, false, ◌&&◌, ◌||◌}
use mathlib.Core.Option.{Option, none, some}
use mathlib.Core.List.{List, [], ◌∷◌, ◌++◌}
use native.Mathlib.Omega.{arith}
use intern_logenhelfer_de.Base.Tests.{if◌then◌else◌, Bool-cases, is_some}
use mathlib.Core.Logic.{◌⊎◌, inl, inr}
use mathlib.Core.Path.{subst}

module _ {ℓ} {A : Type ℓ} where
  abbrev pub length : List A → ℕ
  length [] = 0
  length (x ∷ xs) = suc (length xs)

  -- `findUnique`, `findFirst`: the first row that fits.
  abbrev pub find : (A → Bool) → List A → Option A
  find p [] = none
  find p (x ∷ xs) = if p x then some x else find p xs

  -- `findMany`, `filter`
  abbrev pub select : (A → Bool) → List A → List A
  select p [] = []
  select p (x ∷ xs) = let rest = select p xs in if p x then x ∷ rest else rest

  -- `updateMany`
  abbrev pub update_where : (A → Bool) → (A → A) → List A → List A
  update_where p f [] = []
  update_where p f (x ∷ xs) = (if p x then f x else x) ∷ update_where p f xs

  -- `some`
  abbrev pub any : (A → Bool) → List A → Bool
  any p [] = false
  any p (x ∷ xs) = p x || any p xs

  -- `every`
  abbrev pub all : (A → Bool) → List A → Bool
  all p [] = true
  all p (x ∷ xs) = p x && all p xs

  -- The rows that fit, counted.
  abbrev pub count_where : (A → Bool) → List A → ℕ
  count_where p [] = 0
  count_where p (x ∷ xs) = (if p x then 1 else 0) + count_where p xs

  abbrev pub take : ℕ → List A → List A
  take zero xs = []
  take (suc n) [] = []
  take (suc n) (x ∷ xs) = x ∷ take n xs

  abbrev pub drop : ℕ → List A → List A
  drop zero xs = xs
  drop (suc n) [] = []
  drop (suc n) (x ∷ xs) = drop n xs

  pub length-append : (xs ys : List A) → length (xs ++ ys) ≡ length xs + length ys
  length-append [] ys = omega arith
  length-append (x ∷ xs) ys = omega (arith, length-append xs ys)

  pub length-update_where :
      (p : A → Bool) (f : A → A) (xs : List A) → length (update_where p f xs) ≡ length xs
  length-update_where p f [] = refl
  length-update_where p f (x ∷ xs) = ap suc (length-update_where p f xs)

module _ {ℓ κ} {A : Type ℓ} (P : A → Type κ) where
  abbrev pub All : List A → Type κ
  All [] = Unit
  All (x ∷ xs) = P x × All xs

  pub All-append : (xs ys : List A) → All xs → All ys → All (xs ++ ys)
  All-append [] ys h k = k
  All-append (x ∷ xs) ys (p, h) k = (p, All-append xs ys h k)

-- What a query finds after an update that leaves its condition alone.
module _ {ℓ} {A : Type ℓ} (p : A → Bool) where
  pub find-append_some : (xs ys : List A) (a : A) → find p xs ≡ some a → find p (xs ++ ys) ≡ some a
  find-append_some [] ys a h = cc
  find-append_some (x ∷ xs) ys a h = ground (arith, find-append_some xs ys a)

  pub find-append_none : (xs ys : List A) → find p xs ≡ none → find p (xs ++ ys) ≡ find p ys
  find-append_none [] ys h = refl
  find-append_none (x ∷ xs) ys h = ground (arith, find-append_none xs ys)

  pub any-append : (xs ys : List A) → any p (xs ++ ys) ≡ (any p xs || any p ys)
  any-append [] ys = refl
  any-append (x ∷ xs) ys = ground (arith, any-append xs ys)

  module _ (q : A → Bool) (f : A → A) where
    abbrev pub touched : Option A → Option A
    touched none = none
    touched (some a) = some (if q a then f a else a)

    pub find-update_where :
        ((a : A) → p (f a) ≡ p a)
        → (xs : List A) → find p (update_where q f xs) ≡ touched (find p xs)
    find-update_where keep [] = refl
    find-update_where keep (x ∷ xs) = ground (arith, keep x, find-update_where keep xs)

module _ {ℓ κ} {A : Type ℓ} (P : A → Type κ) (q : A → Bool) (f : A → A) where
  pub All-update_where :
      ((a : A) → P a → P (if q a then f a else a))
      → (xs : List A) → All P xs
      → All P (update_where q f xs)
  All-update_where keep [] h = tt
  All-update_where keep (x ∷ xs) (a, h) = (keep x a, All-update_where keep xs h)

  -- The same where the update alone makes `P` hold.
  pub All-update_where_new :
      ((a : A) → P (if q a then f a else a)) → (xs : List A) → All P (update_where q f xs)
  All-update_where_new new [] = tt
  All-update_where_new new (x ∷ xs) = (new x, All-update_where_new new xs)

pub find-any {ℓ} : {A : Type ℓ} (p : A → Bool) (xs : List A) → is_some (find p xs) ≡ any p xs
find-any p [] = refl
find-any p (x ∷ xs) = ground (arith, find-any p xs)

module _ {ℓ κ} {A : Type ℓ} (P : A → Type κ) where
  pub All-find : (p : A → Bool) (xs : List A) (a : A) → All P xs → find p xs ≡ some a → P a
  All-find p [] a h e = cc
  All-find p (x ∷ xs) a (px, h) e = elim (Bool-cases (p x)) [
    | inl fits ↦ let same : x ≡ a = ground arith in subst P same px
    | inr other ↦ All-find p xs a h (ground arith)
  ]

  pub All-map {μ} : {Q : A → Type μ} → ((a : A) → P a → Q a) → (xs : List A) → All P xs → All Q xs
  All-map f [] h = tt
  All-map f (x ∷ xs) (a, h) = (f x a, All-map f xs h)

-- The first fit among the rows that a query selects.
pub find-select {ℓ} :
    {A : Type ℓ} (p q : A → Bool) (xs : List A) → find p (select q xs) ≡ find (λ a. q a && p a) xs
find-select p q [] = refl
find-select p q (x ∷ xs) = ground (arith, find-select p q xs)

pub find-fits {ℓ} :
    {A : Type ℓ} (p : A → Bool) (xs : List A) (a : A) → find p xs ≡ some a → p a ≡ true
find-fits p [] a e = cc
find-fits p (x ∷ xs) a e = elim (Bool-cases (p x)) [
  | inl fits ↦ let same : x ≡ a = ground arith in rw (← same) fits
  | inr other ↦ find-fits p xs a (ground arith)
]

pub count_where-append {ℓ} :
    {A : Type ℓ} (p : A → Bool) (xs ys : List A)
    → count_where p (xs ++ ys) ≡ count_where p xs + count_where p ys
count_where-append p [] ys = omega arith
count_where-append p (x ∷ xs) ys = omega (arith, count_where-append p xs ys)

-- Rows that a deletion takes away are not found after it; the others are found as before.
module _ {ℓ} {A : Type ℓ} (p q : A → Bool) where
  pub find-select_gone :
      ((a : A) → p a ≡ true → q a ≡ false) → (xs : List A) → find p (select q xs) ≡ none
  find-select_gone apart [] = refl
  find-select_gone apart (x ∷ xs) = ground (arith, apart x, find-select_gone apart xs)

  pub find-select_kept :
      ((a : A) → p a ≡ true → q a ≡ true) → (xs : List A) → find p (select q xs) ≡ find p xs
  find-select_kept kept [] = refl
  find-select_kept kept (x ∷ xs) = ground (arith, kept x, find-select_kept kept xs)

pub select-select {ℓ} :
    {A : Type ℓ} (p q : A → Bool) (xs : List A)
    → select p (select q xs) ≡ select (λ a. q a && p a) xs
select-select p q [] = refl
select-select p q (x ∷ xs) = ground (arith, select-select p q xs)

-- Two facts on each row.
pub All-zip {ℓ κ} :
    {A : Type ℓ} (P Q R : A → Type κ)
    → ((a : A) → P a → Q a → R a)
    → (xs : List A) → All P xs
    → All Q xs
    → All R xs
All-zip P Q R f [] h k = tt
All-zip P Q R f (x ∷ xs) (a, h) (b, k) = (f x a b, All-zip P Q R f xs h k)

-- A query that every row fits.
pub select_every {ℓ} :
    {A : Type ℓ} (p : A → Bool) (rows : List A) → All (λ r. p r ≡ true) rows → select p rows ≡ rows
select_every p [] h = refl
select_every p (r ∷ rows) (e, h) = ground (arith, select_every p rows h)

pub List-cases {ℓ} :
    {A : Type ℓ} (xs : List A) → (xs ≡ []) ⊎ ((a : A) × (rest : List A) × (xs ≡ a ∷ rest))
List-cases [] = inl refl
List-cases (a ∷ rest) = inr (a, rest, refl)
