-- ===== src/Members/Mobile.antt =====
-- The mobile number of a user, which is derived from the addresses (api/src/lib/userMobile.ts).
pub mod Best
use intern_logenhelfer_de.Base.{
  ℕ, String, Bool, true, false, not, ◌&&◌, Option, none, some, List, [], ◌∷◌, leb, ◌==◌, nat_eq,
  string_eq, if◌then◌else◌, select, update_where,
}
use intern_logenhelfer_de.External.{External}
use intern_logenhelfer_de.Store.{User}
use intern_logenhelfer_de.Authz.Ability.{is_true}

-- A row of `addresses`, with the columns that the rule looks at.
pub record Address : Type 0 where
  pub id : ℕ
  pub addressable_id : ℕ
  pub addressable_type : String
  pub type_of_address : Option ℕ
  pub mobile : Option String
  pub deleted : Option Bool

abbrev pub address_type_private : ℕ
address_type_private = 0

abbrev pub address_type_business : ℕ
address_type_business = 1

abbrev pub is_type : ℕ → Address → Bool
is_type wanted a = elim a.type_of_address [ none ↦ false | some t ↦ t == wanted ]

-- `.sort(byIdAscending)`, which is stable: a row goes before the later ones with the same id.
abbrev pub insert_by_id : Address → List Address → List Address
insert_by_id a [] = a ∷ []
insert_by_id a (b ∷ rows) = if leb a.id b.id then a ∷ b ∷ rows else b ∷ insert_by_id a rows

unfoldable pub sort_by_id : List Address → List Address
sort_by_id [] = []
sort_by_id (a ∷ rows) = insert_by_id a (sort_by_id rows)

abbrev pub first {ℓ} : {A : Type ℓ} → List A → Option A
first [] = none
first (a ∷ _) = some a

-- The mobile of the first row, or what the next rule says.
abbrev pub mobile_or : Option Address → Option String → Option String
mobile_or none next = next
mobile_or (some a) next = a.mobile

module _ (x : External) where
  -- On a column of texts.
  unfoldable pub is_present : Option String → Bool
  is_present none = false
  is_present (some value) = not (x.trim value == "")

  abbrev pub is_candidate : Address → Bool
  unfolding is_present
  is_candidate a = not (is_true a.deleted) && is_present a.mobile

  unfoldable pub compute_user_mobile : List Address → Option String
  unfolding sort_by_id
  compute_user_mobile addresses =
      let candidates = select is_candidate addresses in
      mobile_or (first (sort_by_id (select (is_type address_type_private) candidates))) (
        mobile_or (first (sort_by_id (select (is_type address_type_business) candidates)))
          (mobile_or (first (sort_by_id candidates)) none))

  unfoldable pub sync_user_mobile : ℕ → ℕ → List Address → List User → List User
  unfolding compute_user_mobile
  sync_user_mobile user_id now addresses users =
      let own =
        select (λ a. a.addressable_id == user_id && a.addressable_type == "User") addresses in
      update_where (λ u. u.id == user_id)
        (λ u. record u { mobile = compute_user_mobile own; updated_at = now }) users
