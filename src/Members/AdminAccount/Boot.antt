-- ===== src/Members/AdminAccount/Boot.antt =====
-- What a start of the process leaves behind for the administrator of the environment.
use intern_logenhelfer_de.Base.{
  ℕ, ◌≡◌, refl, ◌∙◌, String, Bool, true, false, Option, none, some, List, [], ◌∷◌, ◌++◌, ◌==◌,
  nat_eq, string_eq, eq_refl, find, select, any, update_where, arith, Bool-cases, Option-cases, map,
  length, is_some, find-append_none, find-update_where, nat_beq_iff, inl, inr,
}
use intern_logenhelfer_de.External.{External}
use intern_logenhelfer_de.Store.{User}
use intern_logenhelfer_de.Authz.Ability.{has_role, load_user_role_names, some_values}
use intern_logenhelfer_de.Authz.Rules.{is_number}
use intern_logenhelfer_de.Members.AdminAccount.{
  Accounts, AdminAccountConfigError, no_admin_role, belongs_to_other, sync_account, create_admin,
  new_admin, set_password, is_named, sync_admin_account_from_env, admin_role_name, is_set,
}

-- The ids of the roles that a user has been given.
abbrev role_ids : ℕ → List (Option ℕ × Option ℕ) → List ℕ
role_ids user_id rows = some_values (map (λ r. r.1) (select (λ r. is_number user_id r.0) rows))

role_ids-new :
    (user_id role_id : ℕ) (rows : List (Option ℕ × Option ℕ))
    → any (λ id. id == role_id) (role_ids user_id (rows ++ (some user_id, some role_id) ∷ []))
      ≡ true
role_ids-new user_id role_id [] =
    ground (arith, nat_beq_iff user_id user_id, nat_beq_iff role_id role_id)
role_ids-new user_id role_id ((holder, none) ∷ rows) =
    ground (arith, role_ids-new user_id role_id rows)
role_ids-new user_id role_id ((holder, some id) ∷ rows) =
    ground (arith, role_ids-new user_id role_id rows)

-- The names of the roles with the ids that are given.
abbrev names_of : List ℕ → List (ℕ × Option String) → List String
names_of ids roles = some_values (map (λ r. r.1) (select (λ r. any (λ id. id == r.0) ids) roles))

names_of-held :
    (ids : List ℕ) (name : String) (roles : List (ℕ × Option String)) (role : ℕ × Option String)
    → find (is_named name) roles ≡ some role
    → any (λ id. id == role.0) ids ≡ true
    → has_role (names_of ids roles) name ≡ true
names_of-held ids name [] role found held = cc
names_of-held ids name ((id, none) ∷ roles) role found held =
    let rest = names_of-held ids name roles role found held in ground arith
names_of-held ids name ((id, some n) ∷ roles) role found held = elim (Bool-cases (n == name)) [
  | inl same ↦
      let found_id : id ≡ role.0 = ground arith in
      let kept : any (λ i. i == id) ids ≡ true = rw found_id held in rw (kept, same) refl
  | inr other ↦
      let rest = names_of-held ids name roles role (rw other at found) held in ground arith
]

some_ids : (ids : List ℕ) (id : ℕ) → any (λ i. i == id) ids ≡ true → (length ids == 0) ≡ false
some_ids [] id h = cc
some_ids (i ∷ ids) id h = ground arith

-- The account that a start has to leave: it bears the address, the password opens it, and it is an
-- administrator's.
abbrev pub IsReady : External → String → String → Accounts → Type 0
IsReady x email password a =
    (u : User) × (find (λ v. v.email == email) a.users ≡ some u)
    × (x.compare password u.encrypted_password ≡ true)
    × (has_role (load_user_role_names u.id a.user_roles a.roles) admin_role_name ≡ true)

create_admin-IsReady :
    (x : External) (email password salt : String) (now : ℕ) (a : Accounts)
    (role : ℕ × Option String)
    → find (λ u. u.email == email) a.users ≡ none
    → find (is_named admin_role_name) a.roles ≡ some role
    → IsReady x email password (create_admin email (x.hash salt password) role.0 now a)
unfolding create_admin load_user_role_names
create_admin-IsReady x email password salt now a role free found =
    let u = new_admin a.next_id email (x.hash salt password) now in
    let held = role_ids-new a.next_id role.0 a.user_roles in
    (
      u,
      find-append_none (λ v. v.email == email) a.users (u ∷ []) free ∙ rw (eq_refl email) refl,
      x.compare-hash salt password,
      rw (some_ids _ role.0 held) (names_of-held _ admin_role_name a.roles role found held),
    )

update-IsReady :
    (x : External) (email password salt : String) (now : ℕ) (a : Accounts) (u : User)
    → find (λ v. v.email == email) a.users ≡ some u
    → has_role (load_user_role_names u.id a.user_roles a.roles) admin_role_name ≡ true
    → IsReady x email password (record a {
      users = update_where (λ v. v.id == u.id) (set_password (x.hash salt password) now) a.users;
    })
update-IsReady x email password salt now a u found admin =
    let f = set_password (x.hash salt password) now in
    let there =
      find-update_where (λ v. v.email == email) (λ v. v.id == u.id) f (λ v. refl) a.users in
    let own : (u.id == u.id) ≡ true = ground (arith, nat_beq_iff u.id u.id) in
    (f u, there ∙ rw (found, own) refl, x.compare-hash salt password, admin)

-- An account that is ready lets a start through.
IsReady-start :
    (x : External) (email password encrypted : String) (now : ℕ) (a : Accounts)
    → IsReady x email password a
    → (a' : Accounts) × (sync_account x email encrypted now a ≡ (none, a'))
unfolding sync_account
IsReady-start x email password encrypted now a (u, found, opens, admin) =
    let a' : Accounts = record a {
      users = update_where (λ v. v.id == u.id) (set_password encrypted now) a.users;
    } in
    (a', rw (found, sync_account, admin) refl)

-- Whether a start may go on: the account of the address holds the role, or there is none and the
-- role exists.
abbrev pub is_startable : String → Accounts → Bool
is_startable email a = elim (find (λ u. u.email == email) a.users) [
  | some u ↦ has_role (load_user_role_names u.id a.user_roles a.roles) admin_role_name
  | none ↦ is_some (find (is_named admin_role_name) a.roles)
]

sync_account-start :
    (x : External) (email password salt : String) (now : ℕ) (a : Accounts)
    → is_startable email a ≡ true
    → (a' : Accounts) × (sync_account x email (x.hash salt password) now a ≡ (none, a'))
      × IsReady x email password a'
unfolding sync_account
sync_account-start x email password salt now a may =
    elim (Option-cases (find (λ u. u.email == email) a.users)) [
      | inl free ↦ elim (Option-cases (find (is_named admin_role_name) a.roles)) [
        | inl absent ↦ absurd (ground arith)
        | inr (role, found) ↦
            let a' = create_admin email (x.hash salt password) role.0 now a in
            (
              a',
              rw (free, sync_account, found) refl,
              create_admin-IsReady x email password salt now a role free found,
            )
      ]
      | inr (u, found) ↦
          let admin : has_role (load_user_role_names u.id a.user_roles a.roles) admin_role_name
              ≡ true =
            rw (found, is_startable) at may in
          let a' : Accounts = record a {
            users =
                update_where (λ v. v.id == u.id) (set_password (x.hash salt password) now) a.users;
          } in
          (
            a',
            rw (found, sync_account, admin) refl,
            update-IsReady x email password salt now a u found admin,
          )
    ]

sync_account-stop :
    (x : External) (email encrypted : String) (now : ℕ) (a : Accounts)
    → is_startable email a ≡ false
    → (e : AdminAccountConfigError) × (sync_account x email encrypted now a ≡ (some e, a))
unfolding sync_account
sync_account-stop x email encrypted now a barred =
    elim (Option-cases (find (λ u. u.email == email) a.users)) [
      | inl free ↦ elim (Option-cases (find (is_named admin_role_name) a.roles)) [
        | inl absent ↦ (no_admin_role, rw (free, sync_account, absent) refl)
        | inr (role, found) ↦ absurd (ground arith)
      ]
      | inr (u, found) ↦ (
        belongs_to_other email,
        rw (found, sync_account, rw (found, is_startable) at barred) refl,
      )
    ]

-- With an address and a password in the environment a start goes on exactly where the account of the
-- address holds the role Admin, or there is no such account and the role exists. It then leaves an
-- account of that address that the password opens and that holds the role, and the next start goes
-- on too. A start that does not go on ends in an error and
-- leaves the tables as they were.
pub sync_admin_account_from_env_lem :
    (x : External) (raw_email password salt : String) (now : ℕ) (a : Accounts)
    → is_set (some raw_email) ≡ true
    → is_set (some password) ≡ true
    → let email = x.trim (x.lower raw_email) in
      let start = sync_admin_account_from_env x (some raw_email) (some password) in
      (is_startable email a ≡ true
        → (a' : Accounts) × (start salt now a ≡ (none, a'))
          × IsReady x email password a'
          × ((next_salt : String) (later : ℕ)
              → (a2 : Accounts) × (start next_salt later a' ≡ (none, a2))))
      × (is_startable email a ≡ false
          → (e : AdminAccountConfigError) × (start salt now a ≡ (some e, a)))
unfolding sync_admin_account_from_env
sync_admin_account_from_env_lem x raw_email password salt now a named given =
    let email = x.trim (x.lower raw_email) in
    (
      (λ may.
          let (a', done, ready) = sync_account-start x email password salt now a may in
          (
            a',
            rw (named, given) done,
            ready,
            (λ next_salt later.
                rw (named, given)
                  (IsReady-start x email password (x.hash next_salt password) later a' ready)),
          )),
      (λ barred. rw (named, given) (sync_account-stop x email (x.hash salt password) now a barred)),
    )
