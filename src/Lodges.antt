-- ===== src/Lodges.antt =====
-- Districts, their lodges and the officers of these: DELETE /:id of api/src/routes/districts.ts and
-- DELETE /:slug of api/src/routes/lodges.ts, each a transaction over the tables it marks.
pub mod Cascade
use intern_logenhelfer_de.Base.{
  ℕ, String, Bool, true, false, not, ◌&&◌, Option, none, some, List, [], ◌∷◌, ◌==◌, nat_eq,
  if◌then◌else◌, find, select, map, update_where, is_some, is_listed,
}
use intern_logenhelfer_de.Http.{Reply, empty}
use intern_logenhelfer_de.Authz.Rules.{Casl, manage, destroy, district, lodge}
use intern_logenhelfer_de.Authz.Ability.{is_true}
use intern_logenhelfer_de.Members.Access.{class}
use intern_logenhelfer_de.Members.Accounts.{Caller, forbidden}
use intern_logenhelfer_de.Routes.Grant.{plain}
use intern_logenhelfer_de.Events.Registration.{is_text, not_found}

pub record DistrictRow : Type 0 where
  pub id : ℕ
  pub slug : Option String
  pub name : Option String
  pub deleted : Option Bool
  pub created_at : ℕ
  pub updated_at : ℕ

pub record LodgeRow : Type 0 where
  pub id : ℕ
  pub slug : Option String
  pub name : Option String
  pub description : Option String
  pub district_id : Option ℕ
  pub deleted : Option Bool
  pub created_at : ℕ
  pub updated_at : ℕ

pub record Officer : Type 0 where
  pub id : ℕ
  pub uuid : Option String
  pub lodge_id : Option ℕ
  pub firstname : Option String
  pub lastname : Option String
  pub role_id : Option ℕ
  pub role_email : Option String
  pub deleted : Option Bool
  pub created_at : ℕ
  pub updated_at : ℕ

pub record Lodges : Type 0 where
  pub districts : List DistrictRow
  pub lodges : List LodgeRow
  pub officers : List Officer

-- `deleted: false` in a `where`, which a null does not meet.
abbrev pub is_live : Option Bool → Bool
is_live deleted = is_some deleted && not (is_true deleted)

abbrev pub belongs_to : ℕ → Option ℕ → Bool
belongs_to id none = false
belongs_to id (some parent) = parent == id

-- `{ in: lodgeIds }`
abbrev pub belongs_among : List ℕ → Option ℕ → Bool
belongs_among ids none = false
belongs_among ids (some parent) = is_listed ids parent

abbrev pub hide_district : DistrictRow → DistrictRow
hide_district d = record d { deleted = some true }

abbrev pub hide_lodge : LodgeRow → LodgeRow
hide_lodge l = record l { deleted = some true }

abbrev pub hide_officer : Officer → Officer
hide_officer o = record o { deleted = some true }

-- The lodges that a district's removal finds.
abbrev pub live_lodges_of : ℕ → LodgeRow → Bool
live_lodges_of id l = belongs_to id l.district_id && is_live l.deleted

unfoldable pub hide_lodges : List ℕ → Lodges → Lodges
hide_lodges [] s = s
hide_lodges (lodge_id ∷ lodge_ids) s = record s {
  lodges = update_where (λ l. is_listed (lodge_id ∷ lodge_ids) l.id) hide_lodge s.lodges;
  officers =
      update_where (λ o. belongs_among (lodge_id ∷ lodge_ids) o.lodge_id && is_live o.deleted)
        hide_officer s.officers;
}

unfoldable pub hide_with_lodges : ℕ → Lodges → Lodges
unfolding hide_lodges
hide_with_lodges id s =
    hide_lodges (map (λ l. l.id) (select (live_lodges_of id) s.lodges))
      (record s { districts = update_where (λ d. d.id == id) hide_district s.districts })

unfoldable pub find_district : Option ℕ → Lodges → Option DistrictRow
find_district none s = none
find_district (some id) s = find (λ d. d.id == id && is_live d.deleted) s.districts

unfoldable pub hide_with_officers : ℕ → Lodges → Lodges
hide_with_officers id s = record s {
  lodges = update_where (λ l. l.id == id) hide_lodge s.lodges;
  officers =
      update_where (λ o. belongs_to id o.lodge_id && is_live o.deleted) hide_officer s.officers;
}

unfoldable pub find_lodge : String → Lodges → Option LodgeRow
find_lodge slug s = find (λ l. is_text slug l.slug && is_live l.deleted) s.lodges

module _ (casl : Casl) where
  -- The id is what `parseIdParam` makes of the path. The right is asked before the look-up.
  unfoldable pub delete_district : Caller → Option ℕ → Lodges → Reply × Lodges
  unfolding find_district hide_with_lodges
  delete_district caller id s =
      if not (casl.can caller.ability manage (class district))
      then (forbidden, s)
      else elim (find_district id s) [
        | none ↦ (not_found, s)
        | some d ↦ (plain 204 empty, hide_with_lodges d.id s)
      ]

  -- Here the look-up comes first.
  unfoldable pub delete_lodge : Caller → String → Lodges → Reply × Lodges
  unfolding find_lodge hide_with_officers
  delete_lodge caller slug s = elim (find_lodge slug s) [
    | none ↦ (not_found, s)
    | some l ↦
        if not (casl.can caller.ability destroy (class lodge))
        then (forbidden, s)
        else (plain 204 empty, hide_with_officers l.id s)
  ]
