-- ===== src/Base/Keyed.antt =====
-- Tables with a primary key, and updates by a list of keys.
use Prim.Native.Nat.{ℕ, ◌<◌}
use mathlib.Core.Path.{◌≡◌, refl, ap, sym, ◌∙◌, subst}
use mathlib.Core.Logic.{◌≢◌, inl, inr}
use mathlib.Core.Option.{some}
use mathlib.Core.Bool.{Bool, false, ◌||◌}
use mathlib.Core.List.{List, [], ◌∷◌, ◌++◌, map}
use native.Mathlib.Omega.{arith}
use intern_logenhelfer_de.Base.Tests.{◌==◌, nat_eq, nat_beq_iff, Bool-cases}
use intern_logenhelfer_de.Base.Lists.{
  any, find, select, update_where, All, All-map, All-find, All-append, All-update_where,
}

abbrev pub is_listed : List ℕ → ℕ → Bool
is_listed ids id = any (λ i. i == id) ids

module _ {ℓ} {A : Type ℓ} (key : A → ℕ) where
  abbrev pub HasKeys : List A → Type ℓ
  HasKeys [] = Unit
  HasKeys (x ∷ xs) = All (λ y. key y ≢ key x) xs × HasKeys xs

  not_listed :
      (k : ℕ) (q : A → Bool) (xs : List A)
      → All (λ y. key y ≢ k) xs
      → is_listed (map key (select q xs)) k ≡ false
  not_listed k q [] h = refl
  not_listed k q (x ∷ xs) (ne, h) = ground (arith, nat_beq_iff (key x) k, not_listed k q xs h)

  listed_later :
      (q : A → Bool) (x : A) (all : List A)
      → All (λ y. key y ≢ key x) all
      → (xs : List A) → All (λ y. key y ≢ key x) xs
      → All (λ a. is_listed (map key (select q all)) (key a) ≡ q a) xs
      → All (λ a. is_listed (map key (select q (x ∷ all))) (key a) ≡ q a) xs
  listed_later q x all apart [] h e = tt
  listed_later q x all apart (a ∷ xs) (ne, h) (e, es) =
      (ground (arith, nat_beq_iff (key x) (key a), e), listed_later q x all apart xs h es)

  -- Of keyed rows, those that a query selects are the ones whose keys it lists.
  pub listed_iff :
      (q : A → Bool) (xs : List A)
      → HasKeys xs
      → All (λ a. is_listed (map key (select q xs)) (key a) ≡ q a) xs
  listed_iff q [] h = tt
  listed_iff q (x ∷ xs) (apart, h) = (
    ground (arith, not_listed (key x) q xs apart),
    listed_later q x xs apart xs apart (listed_iff q xs h),
  )

-- The row that a query has found is the one with its key.
module _ {ℓ} {A : Type ℓ} (key : A → ℕ) (p : A → Bool) where
  pub find_unique :
      (xs : List A) (a : A)
      → HasKeys key xs
      → find p xs ≡ some a
      → All (λ x. key x ≡ key a → x ≡ a) xs
  find_unique [] a keyed found = tt
  find_unique (x ∷ xs) a (apart, keyed) found = elim (Bool-cases (p x)) [
    | inl fits ↦
        let same : x ≡ a = ground arith in
        (
          (λ _. same),
          All-map (λ y. key y ≢ key x) (λ y ne e. absurd (ne (e ∙ ap key (sym same)))) xs apart,
        )
    | inr other ↦
        let later = rw other at found in
        let ne = All-find (λ y. key y ≢ key x) p xs a apart later in
        ((λ e. absurd (ne (sym e))), find_unique xs a keyed later)
  ]

-- Updates by conditions that agree on all rows, and one update after another.
module _ {ℓ} {A : Type ℓ} (f : A → A) where
  pub update_where_congr :
      (p q : A → Bool) (xs : List A)
      → All (λ a. p a ≡ q a) xs
      → update_where p f xs ≡ update_where q f xs
  update_where_congr p q [] h = refl
  update_where_congr p q (x ∷ xs) (e, h) = ground (arith, update_where_congr p q xs h)

  pub update_where_twice :
      (p q : A → Bool)
      → ((a : A) → p (f a) ≡ p a)
      → ((a : A) → f (f a) ≡ f a)
      → (xs : List A) → update_where p f (update_where q f xs) ≡ update_where (λ a. q a || p a) f xs
  update_where_twice p q keep same [] = refl
  update_where_twice p q keep same (x ∷ xs) =
      ground (arith, keep x, same x, update_where_twice p q keep same xs)

-- Keys stay a primary key under an update that keeps them, and with a new row of the next key.
module _ {ℓ} {A : Type ℓ} (key : A → ℕ) where
  module _ (q : A → Bool) (f : A → A) (keep : (a : A) → key (f a) ≡ key a) where
    pub update_where-HasKeys : (xs : List A) → HasKeys key xs → HasKeys key (update_where q f xs)
    update_where-HasKeys [] h = tt
    update_where-HasKeys (x ∷ xs) (apart, h) = (
      subst (λ k. All (λ y. key y ≢ k) (update_where q f xs)) (ground (arith, keep x))
          (All-update_where (λ y. key y ≢ key x) q f (λ y ne. ground (arith, keep y)) xs apart),
      update_where-HasKeys xs h,
    )

    pub update_where_below :
        (n : ℕ) (xs : List A) → All (λ x. key x < n) xs → All (λ x. key x < n) (update_where q f xs)
    update_where_below n = All-update_where (λ x. key x < n) q f (λ x h. ground (arith, keep x))

  pub append-HasKeys :
      (n : ℕ) (xs : List A) (a : A)
      → key a ≡ n
      → HasKeys key xs
      → All (λ x. key x < n) xs
      → HasKeys key (xs ++ a ∷ [])
  append-HasKeys n [] a e k b = (tt, tt)
  append-HasKeys n (x ∷ xs) a e (apart, k) (lt, b) = (
    All-append (λ y. key y ≢ key x) xs (a ∷ []) apart (omega arith, tt),
    append-HasKeys n xs a e k b,
  )

  -- An update of no row.
  pub update_absent :
      (f : A → A) (id : ℕ) (xs : List A)
      → All (λ x. key x ≢ id) xs
      → update_where (λ x. key x == id) f xs ≡ xs
  update_absent f id [] h = refl
  update_absent f id (x ∷ xs) (ne, h) = ground (arith, ne, update_absent f id xs h)
