-- ===== src/Members/AdminAccount.antt =====
-- The administrator's account that the environment names (api/src/lib/adminAccount.ts).
pub mod Boot
use intern_logenhelfer_de.Base.{
  ℕ, suc, String, Bool, true, false, not, ◌&&◌, ◌||◌, Option, none, some, List, [], ◌∷◌, ◌++◌, ◌==◌,
  nat_eq, string_eq, if◌then◌else◌, find, update_where, Result, ok, err,
}
use intern_logenhelfer_de.External.{External}
use intern_logenhelfer_de.Store.{User}
use intern_logenhelfer_de.Authz.Ability.{has_role, load_user_role_names}

-- The tables that the start of the process touches.
pub record Accounts : Type 0 where
  pub users : List User
  pub user_roles : List (Option ℕ × Option ℕ)
  pub roles : List (ℕ × Option String)
  pub next_id : ℕ

-- `AdminAccountConfigError`, by its cause; whoever throws it ends the process.
pub data AdminAccountConfigError : Type 0 where
  only_one_set no_admin_role : AdminAccountConfigError
  belongs_to_other : String → AdminAccountConfigError

abbrev pub admin_role_name : String
admin_role_name = "Admin"

-- `rawEmail` in a condition: `undefined` and the empty text are false.
abbrev pub is_set : Option String → Bool
is_set none = false
is_set (some t) = not (t == "")

abbrev pub is_named : String → ℕ × Option String → Bool
is_named name (id, none) = false
is_named name (id, some n) = n == name

abbrev pub set_password : String → ℕ → User → User
set_password encrypted now u = record u { encrypted_password = encrypted; updated_at = now }

abbrev pub new_admin : ℕ → String → String → ℕ → User
new_admin id email encrypted now = record {
  id = id;
  uuid = none;
  email = email;
  mobile = none;
  encrypted_password = encrypted;
  reset_password_token = none;
  reset_password_sent_at = none;
  sign_in_count = none;
  current_sign_in_at = none;
  last_sign_in_at = none;
  current_sign_in_ip = none;
  last_sign_in_ip = none;
  firstname = some "Admin";
  lastname = some "";
  deleted = some false;
  accepted_gdpr = some true;
  birthday_calendar_consent = false;
  created_at = now;
  updated_at = now;
}

-- Both rows are written in one transaction.
unfoldable pub create_admin : String → String → ℕ → ℕ → Accounts → Accounts
create_admin email encrypted role_id now a = record a {
  users = a.users ++ new_admin a.next_id email encrypted now ∷ [];
  user_roles = a.user_roles ++ (some a.next_id, some role_id) ∷ [];
  next_id = suc a.next_id;
}

module _ (x : External) where
  -- What is thrown, if anything, and the tables as they are then, also where an error is thrown. The account of the
  -- address is updated if it holds the role, created if there is none.
  unfoldable pub sync_account :
      String → String → ℕ → Accounts → Option AdminAccountConfigError × Accounts
  unfolding create_admin
  sync_account email encrypted now a = elim (find (λ u. u.email == email) a.users) [
    | some existing ↦
        if not (has_role (load_user_role_names existing.id a.user_roles a.roles) admin_role_name)
        then (some (belongs_to_other email), a)
        else (
          none,
          record a {
            users = update_where (λ u. u.id == existing.id) (set_password encrypted now) a.users;
          },
        )
    | none ↦ elim (find (is_named admin_role_name) a.roles) [
      | none ↦ (some no_admin_role, a)
      | some role ↦ (none, create_admin email encrypted role.0 now a)
    ]
  ]

  abbrev pub with_both :
      Option String
      → Option String
      → String
      → ℕ
      → Accounts
      → Option AdminAccountConfigError × Accounts
  with_both (some email) (some password) salt now a =
      sync_account (x.trim (x.lower email)) (x.hash salt password) now a
  with_both _ _ salt now a = (some only_one_set, a)

  unfoldable pub sync_admin_account_from_env :
      Option String
      → Option String
      → String
      → ℕ
      → Accounts
      → Option AdminAccountConfigError × Accounts
  unfolding sync_account
  sync_admin_account_from_env raw_email raw_password salt now a =
      if not (is_set raw_email) && not (is_set raw_password)
      then (none, a)
      else if not (is_set raw_email) || not (is_set raw_password)
      then (some only_one_set, a)
      else with_both raw_email raw_password salt now a
