-- ===== src/Members/Mobile/Best.antt =====
-- Which of the addresses gives the mobile number.
use intern_logenhelfer_de.Base.{
  ℕ, ◌≤◌, ◌≡◌, ◌⊎◌, inl, inr, refl, subst, String, Bool, true, false, ◌&&◌, Option, none, some,
  List, [], ◌∷◌, leb, ltb, ◌==◌, nat_eq, arith, if◌then◌else◌, select, All, Bool-cases,
  Option-cases, ◌||◌, ◌≢◌, All-map,
}
use intern_logenhelfer_de.External.{External}
use intern_logenhelfer_de.Members.Mobile.{
  Address, address_type_private, address_type_business, is_type, insert_by_id, sort_by_id, first,
  is_candidate, compute_user_mobile,
}

-- Private before business before all others.
abbrev pub rank : Address → ℕ
rank a =
    if is_type address_type_private a then 0 else if is_type address_type_business a then 1 else 2

-- The order among candidates: by kind, then by id.
abbrev pub precedes : Address → Address → Bool
precedes a b = ltb (rank a) (rank b) || (rank a == rank b && leb a.id b.id)

abbrev pub Has : Address → List Address → Type 0
Has a [] = ⊥
Has a (b ∷ rows) = (b ≡ a) ⊎ Has a rows

-- The first row by id.
abbrev IsLeast : Option Address → List Address → Type 0
IsLeast none rows = rows ≡ []
IsLeast (some a) rows = Has a rows × All (λ b. a.id ≤ b.id) rows

weaken :
    (a b : Address) (rows : List Address)
    → a.id ≤ b.id
    → All (λ c. b.id ≤ c.id) rows
    → All (λ c. a.id ≤ c.id) rows
weaken a b [] le h = tt
weaken a b (c ∷ rows) le (h, hs) = (omega arith, weaken a b rows le hs)

IsLeast-insert :
    (a : Address) (rows sorted : List Address)
    → IsLeast (first sorted) rows
    → IsLeast (first (insert_by_id a sorted)) (a ∷ rows)
IsLeast-insert a rows [] h = rw h ((inl refl), (omega arith, tt))
IsLeast-insert a rows (b ∷ sorted) (has, all) = elim (Bool-cases (leb a.id b.id)) [
  | inl le ↦ rw le ((inl refl), (omega arith, weaken a b rows (ground arith) all))
  | inr gt ↦ rw gt ((inr has), (ground arith, all))
]

sort-IsLeast : (rows : List Address) → IsLeast (first (sort_by_id rows)) rows
unfolding sort_by_id
sort-IsLeast [] = refl
sort-IsLeast (a ∷ rows) = IsLeast-insert a rows (sort_by_id rows) (sort-IsLeast rows)

module _ (p : Address → Bool) where
  Has-select :
      (a : Address) (rows : List Address) → Has a (select p rows) → Has a rows × (p a ≡ true)
  Has-select a [] h = absurd h
  Has-select a (b ∷ rows) h = elim (Bool-cases (p b)) [
    | inl fits ↦
        let now : (b ≡ a) ⊎ Has a (select p rows) = rw fits at h in
        elim now [
          | inl same ↦ (inl same, subst (λ c. p c ≡ true) same fits)
          | inr later ↦ let (has, q) = Has-select a rows later in (inr has, q)
        ]
    | inr other ↦ let (has, q) = Has-select a rows (rw other at h) in (inr has, q)
  ]

  All-select {κ} :
      (P : Address → Type κ) (rows : List Address)
      → All P (select p rows)
      → All (λ b. p b ≡ true → P b) rows
  All-select P [] h = tt
  All-select P (b ∷ rows) h = elim (Bool-cases (p b)) [
    | inl fits ↦
        let both : P b × All P (select p rows) = rw fits at h in
        ((λ _. both.0), All-select P rows both.1)
    | inr other ↦ ((λ fits. absurd (cc)), All-select P rows (rw other at h))
  ]

  select-nil : (rows : List Address) → select p rows ≡ [] → All (λ b. p b ≡ false) rows
  select-nil [] h = tt
  select-nil (b ∷ rows) h = elim (Bool-cases (p b)) [
    | inl fits ↦ let full : b ∷ select p rows ≡ [] = rw fits at h in cc full
    | inr other ↦ (other, select-nil rows (rw other at h))
  ]

module _ (x : External) where
  -- What a choice has to be: one of the candidates, before all others.
  abbrev pub IsBest : List Address → Option String → Type 0
  IsBest rows mobile =
      (a : Address) × Has a rows
      × (is_candidate x a ≡ true)
      × (mobile ≡ a.mobile)
      × All (λ b. is_candidate x b ≡ true → precedes a b ≡ true) rows

All-of {κ} : (P : Address → Type κ) → ((b : Address) → P b) → (rows : List Address) → All P rows
All-of P f [] = tt
All-of P f (b ∷ rows) = (f b, All-of P f rows)

Has-All {κ} :
    (P : Address → Type κ) (a : Address) (rows : List Address) → Has a rows → All P rows → P a
Has-All P a [] h all = absurd h
Has-All P a (b ∷ rows) (inl same) (p, all) = subst P same p
Has-All P a (b ∷ rows) (inr later) (p, all) = Has-All P a rows later all

business-private :
    (a : Address) → is_type address_type_business a ≡ true → is_type address_type_private a ≡ false
business-private a h = elim (Option-cases a.type_of_address) [
  | inl missing ↦ ground arith
  | inr (t, given) ↦ ground arith
]

-- A row before which, by kind and id, no candidate stands.
best :
    (x : External) (a : Address) (rows : List Address) (mobile : Option String)
    → let candidates = select (is_candidate x) rows in
      Has a candidates
      → mobile ≡ a.mobile
      → All (λ b. precedes a b ≡ true) candidates
      → IsBest x rows mobile
best x a rows mobile has same before =
    let (in_rows, fits) = Has-select (is_candidate x) a rows has in
    (a, in_rows, fits, same, All-select (is_candidate x) (λ b. precedes a b ≡ true) rows before)

All-zip :
    (kind : Address → Bool) (a : Address) (rows : List Address)
    → kind a ≡ true
    → All (λ b. kind a ≡ true → (kind b ≡ true → a.id ≤ b.id) → precedes a b ≡ true) rows
    → All (λ b. kind b ≡ true → a.id ≤ b.id) rows
    → All (λ b. precedes a b ≡ true) rows
All-zip kind a [] fits wins least = tt
All-zip kind a (b ∷ rows) fits (win, wins) (le, least) =
    (win fits le, All-zip kind a rows fits wins least)

-- The first by id among the candidates of one kind.
IsBest-of_kind :
    (x : External) (kind : Address → Bool) (a : Address) (rows : List Address)
    → let candidates = select (is_candidate x) rows in
      IsLeast (some a) (select kind candidates)
      → All (λ b. kind a ≡ true → (kind b ≡ true → a.id ≤ b.id) → precedes a b ≡ true) candidates
      → IsBest x rows a.mobile
IsBest-of_kind x kind a rows (has, least) wins =
    let candidates = select (is_candidate x) rows in
    let (among, fits) = Has-select kind a candidates has in
    best x a rows a.mobile among refl
      (All-zip kind a candidates fits wins (All-select kind (λ b. a.id ≤ b.id) candidates least))

private_wins :
    (a b : Address)
    → is_type address_type_private a ≡ true
    → (is_type address_type_private b ≡ true → a.id ≤ b.id)
    → precedes a b ≡ true
private_wins a b fits le = elim (Bool-cases (is_type address_type_private b)) [
  | inl own ↦ let h = le own in rw (fits, own) (ground arith)
  | inr other ↦ elim (Bool-cases (is_type address_type_business b)) [
    | inl work ↦ rw (fits, other, work) refl
    | inr rest ↦ rw (fits, other, rest) refl
  ]
]

business_wins :
    (a b : Address)
    → is_type address_type_private b ≡ false
    → is_type address_type_business a ≡ true
    → (is_type address_type_business b ≡ true → a.id ≤ b.id)
    → precedes a b ≡ true
business_wins a b apart fits le = elim (Bool-cases (is_type address_type_business b)) [
  | inl work ↦ let h = le work in rw (business-private a fits, fits, apart, work) (ground arith)
  | inr rest ↦ rw (business-private a fits, fits, apart, rest) refl
]

other_wins :
    (a : Address) (rows : List Address)
    → is_type address_type_private a ≡ false
    → is_type address_type_business a ≡ false
    → All (λ b. a.id ≤ b.id) rows
    → All (λ b. is_type address_type_private b ≡ false) rows
    → All (λ b. is_type address_type_business b ≡ false) rows
    → All (λ b. precedes a b ≡ true) rows
other_wins a [] p q le ps qs = tt
other_wins a (b ∷ rows) p q (h, le) (pb, ps) (qb, qs) =
    (rw (p, q, pb, qb) (ground arith), other_wins a rows p q le ps qs)

-- A user with a usable number gets the one of an address that comes first: private before business
-- before any other, and of several the one with the lowest id. An address counts unless it is deleted
-- or its number is blank; a user with none that counts gets no number.
pub compute_user_mobile_lem :
    (x : External) (rows : List Address)
    → (select (is_candidate x) rows ≡ [] → compute_user_mobile x rows ≡ none)
      × (select (is_candidate x) rows ≢ [] → IsBest x rows (compute_user_mobile x rows))
unfolding compute_user_mobile
compute_user_mobile_lem x rows =
    let candidates = select (is_candidate x) rows in
    let private = select (is_type address_type_private) candidates in
    let business = select (is_type address_type_business) candidates in
    (
      (λ blank. rw blank refl),
      (λ some_fit. elim (Option-cases (first (sort_by_id private))) [
        | inr (a, e) ↦ rw e (
            IsBest-of_kind x (is_type address_type_private) a rows (rw e at (sort-IsLeast private))
              (All-of _ (λ b fits le. private_wins a b fits le) candidates))
        | inl e ↦
            let no_private =
              select-nil (is_type address_type_private) candidates
                (rw e at (sort-IsLeast private)) in
            elim (Option-cases (first (sort_by_id business))) [
              | inr (a, f) ↦
                  rw (e, f)
                    (IsBest-of_kind x (is_type address_type_business) a rows
                      (rw f at (sort-IsLeast business))
                      (All-map _ (λ b apart fits le. business_wins a b apart fits le) candidates
                        no_private))
              | inl f ↦
                  let no_business =
                    select-nil (is_type address_type_business) candidates
                      (rw f at (sort-IsLeast business)) in
                  elim (Option-cases (first (sort_by_id candidates))) [
                    | inl g ↦ absurd (some_fit (rw g at (sort-IsLeast candidates)))
                    | inr (a, g) ↦
                        let least : IsLeast (some a) candidates =
                          rw g at (sort-IsLeast candidates) in
                        rw (e, f, g)
                          (best x a rows a.mobile least.0 refl (
                            other_wins a candidates (Has-All _ a candidates least.0 no_private)
                              (Has-All _ a candidates least.0 no_business) least.1 no_private
                              no_business))
                  ]
            ]
      ]),
    )
