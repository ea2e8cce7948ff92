-- ===== src/Members/Roles.antt =====
-- The roles and degrees of a member (api/src/routes/members.ts).
pub mod Offices
use intern_logenhelfer_de.Base.{
  ℕ, suc, String, Bool, true, false, not, ◌&&◌, ◌||◌, Option, none, some, List, [], ◌∷◌, ◌++◌, map,
  ◌==◌, nat_eq, string_eq, if◌then◌else◌, find, select, any, update_where, is_some,
}
use Prim.Native.String
use intern_logenhelfer_de.Authz.Rules.{is_number}
use intern_logenhelfer_de.Authz.Ability.{some_values, is_true}
use intern_logenhelfer_de.Authz.Visibility.{includes}

pub record UserRole : Type 0 where
  pub id : ℕ
  pub user_id : Option ℕ
  pub role_id : Option ℕ
  pub role_added_at : Option ℕ

pub record Role : Type 0 where
  pub id : ℕ
  pub name : Option String
  pub group : Option Bool

-- The rows of `user_roles`, and the next id.
pub record RoleTable : Type 0 where
  pub rows : List UserRole
  pub next_id : ℕ

abbrev pub holds_role : ℕ → ℕ → UserRole → Bool
holds_role user_id role_id r = is_number user_id r.user_id && is_number role_id r.role_id

-- `deleteMany({ where: { user_id, role_id } })`
unfoldable pub drop_role : ℕ → ℕ → List UserRole → List UserRole
drop_role user_id role_id rows = select (λ r. not (holds_role user_id role_id r)) rows

-- `NOT: { user_id }` does not match a row whose user is null.
abbrev pub is_other : ℕ → Option ℕ → Bool
is_other user_id none = false
is_other user_id (some holder) = not (holder == user_id)

unfoldable pub vacate : ℕ → ℕ → List UserRole → List UserRole
vacate user_id role_id rows =
    select (λ r. not (is_number role_id r.role_id && is_other user_id r.user_id)) rows

unfoldable pub add_role : ℕ → ℕ → Option ℕ → RoleTable → RoleTable
add_role user_id role_id added_at t =
    let row : UserRole = record {
      id = t.next_id;
      user_id = some user_id;
      role_id = some role_id;
      role_added_at = added_at;
    } in
    record { rows = t.rows ++ row ∷ []; next_id = suc t.next_id }

-- `role && !role.group`
abbrev pub is_office : List Role → ℕ → Bool
is_office roles role_id = elim (find (λ r. r.id == role_id) roles) [
  | none ↦ false
  | some r ↦ not (is_true r.group)
]

abbrev pub drop_all : ℕ → List ℕ → RoleTable → RoleTable
drop_all user_id [] t = t
drop_all user_id (role_id ∷ ids) t =
    drop_all user_id ids (record t { rows = drop_role user_id role_id t.rows })

unfoldable pub grant_role : List Role → ℕ → ℕ → RoleTable → RoleTable
unfolding vacate add_role
grant_role roles user_id role_id t =
    add_role user_id role_id none (record t {
      rows = if is_office roles role_id then vacate user_id role_id t.rows else t.rows;
    })

abbrev pub grant_all : List Role → ℕ → List ℕ → RoleTable → RoleTable
grant_all roles user_id [] t = t
grant_all roles user_id (role_id ∷ ids) t =
    grant_all roles user_id ids (grant_role roles user_id role_id t)

-- `[...new Set(ids)]`: the first of each.
abbrev pub distinct : List ℕ → List ℕ → List ℕ
distinct seen [] = []
distinct seen (id ∷ ids) =
    let rest = distinct (id ∷ seen) ids in if includes seen id then rest else id ∷ rest

-- `currentIds` and `submittedIds`.
abbrev pub current_ids : ℕ → List ℕ → RoleTable → List ℕ
current_ids user_id assignable_ids t =
    let of_user : UserRole → Bool = λ r. is_number user_id r.user_id in
    select (includes assignable_ids) (some_values (map (λ r. r.role_id) (select of_user t.rows)))

abbrev pub submitted_ids : List ℕ → List ℕ → List ℕ
submitted_ids submitted assignable_ids = select (includes assignable_ids) (distinct [] submitted)

abbrev pub without : List ℕ → List ℕ → List ℕ
without ids removed = select (λ id. not (includes removed id)) ids

unfoldable pub apply_role_ids : List Role → ℕ → List ℕ → List ℕ → RoleTable → RoleTable
unfolding drop_role grant_role
apply_role_ids roles user_id submitted assignable_ids t =
    let current = current_ids user_id assignable_ids t in
    let wanted = submitted_ids submitted assignable_ids in
    grant_all roles user_id (without wanted current) (drop_all user_id (without current wanted) t)

abbrev pub is_role_named : String → Role → Bool
is_role_named name r = elim r.name [ none ↦ false | some n ↦ n == name ]

-- `ur?.role_added_at ?? null`
abbrev pub added_at : Option UserRole → Option ℕ
added_at none = none
added_at (some r) = r.role_added_at

unfoldable pub get_degree_date : List Role → ℕ → String → RoleTable → Option ℕ
get_degree_date roles user_id role_name t = elim (find (is_role_named role_name) roles) [
  | none ↦ none
  | some role ↦ added_at (find (holds_role user_id role.id) t.rows)
]

abbrev pub msg_must_be_fellow_craft_to_become_master : String
msg_must_be_fellow_craft_to_become_master =
    "Um Meister zu werden muss der Benutzer erst Geselle sein."

abbrev pub msg_must_be_entered_apprentice : String
msg_must_be_entered_apprentice = "Du musst das Datum der Aufnahme des Bruders angeben."

abbrev pub msg_role_not_found : String → String
msg_role_not_found role =
    String.◌++◌ "Die Rolle \"" (String.◌++◌ role "\" existiert nicht in diesem System.")

abbrev pub dated : ℕ → UserRole → UserRole
dated date r = record r { role_added_at = some date }

abbrev pub Checked : Type 0
Checked = List String × RoleTable

-- A date that is given; a blank one is left out before.
unfoldable pub set_degree_by_name : List Role → ℕ → String → ℕ → RoleTable → Checked
unfolding add_role
set_degree_by_name roles user_id role_name date t = elim (find (is_role_named role_name) roles) [
  | none ↦ (msg_role_not_found role_name ∷ [], t)
  | some role ↦ elim (find (holds_role user_id role.id) t.rows) [
    | some existing ↦
        ([], record t { rows = update_where (λ r. r.id == existing.id) (dated date) t.rows })
    | none ↦ ([], add_role user_id role.id (some date) t)
  ]
]

-- One of the three degrees; the one before it must be dated.
abbrev pub apply_degree : List Role → ℕ → Option String → String → Option ℕ → RoleTable → Checked
apply_degree roles user_id before role_name none t = ([], t)
apply_degree roles user_id none role_name (some date) t =
    set_degree_by_name roles user_id role_name date t
apply_degree roles user_id (some before) role_name (some date) t =
    if is_some (get_degree_date roles user_id before t)
    then set_degree_by_name roles user_id role_name date t
    else (msg_must_be_fellow_craft_to_become_master ∷ [], t)

-- The dates of the request, `none` where blank.
pub record DegreeDates : Type 0 where
  pub entered_apprentice_since : Option ℕ
  pub fellow_craft_since : Option ℕ
  pub master_mason_since : Option ℕ

unfoldable pub apply_degree_dates : List Role → ℕ → DegreeDates → RoleTable → Checked
unfolding set_degree_by_name get_degree_date
apply_degree_dates roles user_id d t =
    let (e1, t1) =
      apply_degree roles user_id none "EnteredApprentice" d.entered_apprentice_since t in
    let (e2, t2) =
      apply_degree roles user_id (some "EnteredApprentice") "FellowCraft" d.fellow_craft_since t1 in
    let (e3, t3) =
      apply_degree roles user_id (some "FellowCraft") "MasterMason" d.master_mason_since t2 in
    (e1 ++ (e2 ++ e3), t3)

unfoldable pub validate_roles_on_update : List Role → ℕ → RoleTable → List String
unfolding get_degree_date
validate_roles_on_update roles user_id t =
    if is_some (get_degree_date roles user_id "EnteredApprentice" t)
    then []
    else msg_must_be_entered_apprentice ∷ []
