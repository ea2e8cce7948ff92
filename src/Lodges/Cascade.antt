-- ===== src/Lodges/Cascade.antt =====
-- No lodge outlives its district and no officer the lodge.
use intern_logenhelfer_de.Base.{
  ℕ, ◌≡◌, refl, String, Bool, true, false, ◌&&◌, Option, none, some, List, [], ◌∷◌, ◌==◌, nat_eq,
  select, map, update_where, is_listed, All, All-map, HasKeys, Bool-cases, Option-cases, inl, inr,
  arith, listed_iff, nat_beq_iff, sym, ◌∙◌,
}
use intern_logenhelfer_de.Authz.Rules.{Casl, manage, destroy, district, lodge}
use intern_logenhelfer_de.Members.Access.{class}
use intern_logenhelfer_de.Members.Accounts.{Caller}
use intern_logenhelfer_de.Lodges.{
  Lodges, DistrictRow, LodgeRow, Officer, is_live, belongs_to, belongs_among, hide_lodge,
  hide_officer, hide_district, hide_lodges, hide_with_lodges, hide_with_officers, live_lodges_of,
  delete_district, delete_lodge, find_district, find_lodge,
}

-- The lodges of the district are all deleted, and the officers of the lodge.
abbrev pub IsEmptied : ℕ → List LodgeRow → Type 0
IsEmptied id = All (λ l. belongs_to id l.district_id ≡ true → is_live l.deleted ≡ false)

abbrev pub IsVacant : ℕ → List Officer → Type 0
IsVacant id = All (λ o. belongs_to id o.lodge_id ≡ true → is_live o.deleted ≡ false)

abbrev pub IsClosed : Lodges → Type 0
IsClosed s =
    All (λ d. is_live d.deleted ≡ false → IsEmptied d.id s.lodges) s.districts
    × All (λ l. is_live l.deleted ≡ false → IsVacant l.id s.officers) s.lodges

module _ {ℓ κ μ} {A : Type ℓ} (P : A → Type κ) (Q : A → Type μ) (q : A → Bool) (f : A → A) where
  All-update_to :
      ((a : A) → q a ≡ true → P a → Q (f a))
      → ((a : A) → q a ≡ false → P a → Q a)
      → (xs : List A) → All P xs
      → All Q (update_where q f xs)
  All-update_to hit miss [] h = tt
  All-update_to hit miss (x ∷ xs) (a, h) = elim (Bool-cases (q x)) [
    | inl e ↦ rw e (hit x e a, All-update_to hit miss xs h)
    | inr e ↦ rw e (miss x e a, All-update_to hit miss xs h)
  ]

-- Marking more lodges leaves a district without lodges so; marking more officers likewise.
IsEmptied-more :
    (id : ℕ) (q : LodgeRow → Bool) (xs : List LodgeRow)
    → IsEmptied id xs
    → IsEmptied id (update_where q hide_lodge xs)
IsEmptied-more id q = All-update_to _ _ q hide_lodge (λ l e h b. refl) (λ l e h. h)

IsVacant-more :
    (id : ℕ) (q : Officer → Bool) (xs : List Officer)
    → IsVacant id xs
    → IsVacant id (update_where q hide_officer xs)
IsVacant-more id q = All-update_to _ _ q hide_officer (λ o e h b. refl) (λ o e h. h)

-- The lodge is vacant once all its live officers are marked.
IsVacant-new :
    (id : ℕ) (among : Option ℕ → Bool) (xs : List Officer)
    → ((parent : Option ℕ) → belongs_to id parent ≡ true → among parent ≡ true)
    → IsVacant id (update_where (λ o. among o.lodge_id && is_live o.deleted) hide_officer xs)
IsVacant-new id among [] covers = tt
IsVacant-new id among (o ∷ xs) covers = (
  elim (Bool-cases (among o.lodge_id && is_live o.deleted)) [
    | inl hit ↦ rw hit (λ b. refl)
    | inr miss ↦ rw miss (λ b. ground (arith, covers o.lodge_id b, miss))
  ],
  IsVacant-new id among xs covers,
)

belongs_listed :
    (ids : List ℕ) (id : ℕ)
    → is_listed ids id ≡ true
    → (parent : Option ℕ) → belongs_to id parent ≡ true
    → belongs_among ids parent ≡ true
belongs_listed ids id listed none b = cc
belongs_listed ids id listed (some parent) b = rw ((nat_beq_iff parent id).0 b) listed

hide_lodges-IsVacant :
    (ids : List ℕ) (s : Lodges)
    → All (λ l. is_live l.deleted ≡ false → IsVacant l.id s.officers) s.lodges
    → let s' = hide_lodges ids s in
      All (λ l. is_live l.deleted ≡ false → IsVacant l.id s'.officers) s'.lodges
unfolding hide_lodges
hide_lodges-IsVacant [] s closed = closed
hide_lodges-IsVacant (a ∷ ids) s closed =
    All-update_to _ _ (λ l. is_listed (a ∷ ids) l.id) hide_lodge
      (λ l hit h dead.
        IsVacant-new l.id (belongs_among (a ∷ ids)) s.officers (belongs_listed (a ∷ ids) l.id hit))
      (λ l miss h dead. IsVacant-more l.id _ s.officers (h dead)) s.lodges closed

hide_lodges-IsEmptied :
    (ids : List ℕ) (id : ℕ) (s : Lodges)
    → All (λ l. is_listed ids l.id ≡ live_lodges_of id l) s.lodges
    → IsEmptied id (hide_lodges ids s).lodges
unfolding hide_lodges
hide_lodges-IsEmptied [] id s same = All-map _ (λ l e b. ground (arith, e, b)) s.lodges same
hide_lodges-IsEmptied (a ∷ ids) id s same =
    All-update_to _ _ (λ l. is_listed (a ∷ ids) l.id) hide_lodge (λ l e h b. refl)
      (λ l miss e b. ground (arith, sym miss ∙ e, b)) s.lodges same

hide_lodges_keeps :
    (ids : List ℕ) (id : ℕ) (s : Lodges)
    → IsEmptied id s.lodges
    → IsEmptied id (hide_lodges ids s).lodges
unfolding hide_lodges
hide_lodges_keeps [] id s h = h
hide_lodges_keeps (a ∷ ids) id s h = IsEmptied-more id _ s.lodges h

hide_lodges_districts : (ids : List ℕ) (s : Lodges) → (hide_lodges ids s).districts ≡ s.districts
unfolding hide_lodges
hide_lodges_districts [] s = refl
hide_lodges_districts (a ∷ ids) s = refl

hide_with_lodges-IsClosed :
    (id : ℕ) (s : Lodges)
    → HasKeys (λ l. l.id) s.lodges
    → IsClosed s
    → IsClosed (hide_with_lodges id s)
unfolding hide_with_lodges
hide_with_lodges-IsClosed id s keyed (emptied, vacant) =
    let ids = map (λ (l : LodgeRow). l.id) (select (live_lodges_of id) s.lodges) in
    let s1 : Lodges = record s {
      districts = update_where (λ d. d.id == id) hide_district s.districts;
    } in
    let none_left =
      hide_lodges-IsEmptied ids id s1 (listed_iff (λ l. l.id) (live_lodges_of id) s.lodges keyed) in
    (
      rw (hide_lodges_districts ids s1) (
          All-update_to _ _ (λ d. d.id == id) hide_district
            (λ d hit h dead. rw ((nat_beq_iff d.id id).0 hit) none_left)
            (λ d miss h dead. hide_lodges_keeps ids d.id s1 (h dead)) s.districts emptied),
      hide_lodges-IsVacant ids s1 vacant,
    )

hide_with_officers-IsClosed :
    (id : ℕ) (s : Lodges) → IsClosed s → IsClosed (hide_with_officers id s)
unfolding hide_with_officers
hide_with_officers-IsClosed id s (emptied, vacant) = (
  All-map _ (λ d h dead. IsEmptied-more d.id (λ l. l.id == id) s.lodges (h dead)) s.districts
      emptied,
  All-update_to _ _ (λ l. l.id == id) hide_lodge
      (λ l hit h dead.
        rw ((nat_beq_iff l.id id).0 hit)
          (IsVacant-new id (belongs_to id) s.officers (λ parent b. b)))
      (λ l miss h dead. IsVacant-more l.id _ s.officers (h dead)) s.lodges vacant,
)

hidden_districts :
    (id : ℕ) (xs : List DistrictRow)
    → All
        (λ d. d.id ≡ id → is_live d.deleted ≡ false)
        (update_where (λ d. d.id == id) hide_district xs)
hidden_districts id [] = tt
hidden_districts id (d ∷ xs) = (
  elim (Bool-cases (d.id == id)) [
    | inl hit ↦ rw hit (λ e. refl)
    | inr miss ↦ rw miss (λ e. absurd (ground (arith, (nat_beq_iff d.id id).1 e, miss)))
  ],
  hidden_districts id xs,
)

hidden_lodges :
    (id : ℕ) (xs : List LodgeRow)
    → All
        (λ l. l.id ≡ id → is_live l.deleted ≡ false)
        (update_where (λ l. l.id == id) hide_lodge xs)
hidden_lodges id [] = tt
hidden_lodges id (l ∷ xs) = (
  elim (Bool-cases (l.id == id)) [
    | inl hit ↦ rw hit (λ e. refl)
    | inr miss ↦ rw miss (λ e. absurd (ground (arith, (nat_beq_iff l.id id).1 e, miss)))
  ],
  hidden_lodges id xs,
)

module _ (casl : Casl) (caller : Caller) (s : Lodges) where
  -- Where no live lodge is in a removed district and no live officer in a removed lodge, with the
  -- ids of the lodges a primary key, the removal of a district and that of a lodge leave it so, and
  -- each, where the caller has the right to it, removes the row that it has found.
  pub removals-IsClosed :
      (id : Option ℕ) (slug : String)
      → HasKeys (λ l. l.id) s.lodges
      → IsClosed s
      → let s1 = (delete_district casl caller id s).1 in
        let s2 = (delete_lodge casl caller slug s).1 in
        IsClosed s1
        × IsClosed s2
        × ((d : DistrictRow)
            → find_district id s ≡ some d
            → casl.can caller.ability manage (class district) ≡ true
            → All (λ d'. d'.id ≡ d.id → is_live d'.deleted ≡ false) s1.districts)
        × ((l : LodgeRow)
            → find_lodge slug s ≡ some l
            → casl.can caller.ability destroy (class lodge) ≡ true
            → All (λ l'. l'.id ≡ l.id → is_live l'.deleted ≡ false) s2.lodges)
  unfolding delete_district delete_lodge hide_with_lodges hide_with_officers
  removals-IsClosed id slug keyed closed = (
    elim (Bool-cases (casl.can caller.ability manage (class district))) [
      | inr barred ↦ rw barred closed
      | inl may ↦ elim (Option-cases (find_district id s)) [
        | inl missing ↦ rw (may, missing) closed
        | inr (d, found) ↦ rw (may, found) (hide_with_lodges-IsClosed d.id s keyed closed)
      ]
    ],
    elim (Option-cases (find_lodge slug s)) [
      | inl missing ↦ rw (delete_lodge, missing) closed
      | inr (l, found) ↦ elim (Bool-cases (casl.can caller.ability destroy (class lodge))) [
        | inr barred ↦ rw (delete_lodge, found, barred) closed
        | inl may ↦ rw (delete_lodge, found, may) (hide_with_officers-IsClosed l.id s closed)
      ]
    ],
    λ d found may. rw (may, found, hide_lodges_districts) (hidden_districts d.id s.districts),
    λ l found may. rw (delete_lodge, found, may) (hidden_lodges l.id s.lodges),
  )
