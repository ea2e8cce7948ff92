-- ===== src/Tests/Lodges.antt =====
-- A district with one lodge and its officer.
use intern_logenhelfer_de.Base.{◌≡◌, refl, false, none, some, [], ◌∷◌, All}
use intern_logenhelfer_de.Authz.Ability.{build_ability, impersonate_guard, role_rules, is_admin}
use intern_logenhelfer_de.Authz.Grants.{role_ability_builders}
use intern_logenhelfer_de.Members.Accounts.{Caller}
use intern_logenhelfer_de.Lodges.{Lodges, DistrictRow, is_live, delete_district, find_district}
use intern_logenhelfer_de.Lodges.Cascade.{removals-IsClosed}
use intern_logenhelfer_de.Tests.Data.{casl, member}

abbrev keeper : Caller
keeper = record {
  user = member;
  ability = build_ability (some 1) ("Admin" ∷ []);
  impersonator = none;
}

abbrev north : DistrictRow
north = record {
  id = 1;
  slug = some "nord";
  name = some "Nord";
  deleted = some false;
  created_at = 0;
  updated_at = 0;
}

abbrev land : Lodges
land = record {
  districts = north ∷ [];
  lodges =
      (record {
        id = 2;
        slug = some "zur-eiche";
        name = some "Zur Eiche";
        description = none;
        district_id = some 1;
        deleted = some false;
        created_at = 0;
        updated_at = 0;
      })
      ∷ [];
  officers =
      (record {
        id = 3;
        uuid = some "o3";
        lodge_id = some 2;
        firstname = some "Max";
        lastname = some "Muster";
        role_id = none;
        role_email = none;
        deleted = some false;
        created_at = 0;
        updated_at = 0;
      })
      ∷ [];
}

removals-IsClosed_example :
    All
      (λ d. d.id ≡ 1 → is_live d.deleted ≡ false)
      (delete_district casl keeper (some 1) land).1.districts
unfolding find_district build_ability role_ability_builders impersonate_guard role_rules is_admin
removals-IsClosed_example =
    (removals-IsClosed casl keeper land (some 1) "zur-eiche" (tt, tt)
        (((λ dead. cc), tt), ((λ dead. cc), tt))).2
      north refl refl
