-- ===== src/Authz/Grants.antt =====
-- The rule set of each role (api/src/authz/ability.ts). A function that calls `can` is the list of
-- the rules that it adds, in that order.
use intern_logenhelfer_de.Base.{
  ℕ, String, true, false, none, some, List, find, [], ◌∷◌, ◌++◌, ◌==◌, string_eq,
}
use intern_logenhelfer_de.Authz.Rules.{Action, SubjectName, Rule, Condition, has_id, has_user_id}
use intern_logenhelfer_de.Authz.Rules.{
  manage, google_sync, create_google_contact, update_google_contact, show, edit, update,
  update_announcement_subscription, update_birthday_calendar_consent, update_password, create,
  index, add_me, remove_me, upcoming, date, public_workingplan, internal_workingplan, file_stats,
  mem_stats, downloads, csv_export, user_stats, user_file_stats, space_stats, accepted, inactive,
  declined, impersonate,
}
use intern_logenhelfer_de.Authz.Rules.{
  user, event_participant, external_event_participant, announcement, external_event, academic_title,
  event, category, directory, attached_file, statistic, user_role, seeker, app_config, district,
  role, lodge, officer,
}

abbrev pub can : List Action → SubjectName → Rule
can actions subject = record {
  inverted = false;
  actions = actions;
  subject = subject;
  condition = none;
}

abbrev pub can_if : List Action → SubjectName → Condition → Rule
can_if actions subject condition = record {
  inverted = false;
  actions = actions;
  subject = subject;
  condition = some condition;
}

abbrev pub cannot : List Action → SubjectName → Rule
cannot actions subject = record {
  inverted = true;
  actions = actions;
  subject = subject;
  condition = none;
}

abbrev pub cannot_if : List Action → SubjectName → Condition → Rule
cannot_if actions subject condition = record {
  inverted = true;
  actions = actions;
  subject = subject;
  condition = some condition;
}

unfoldable pub default_user_abilities : ℕ → List Rule
default_user_abilities user_id =
    can (google_sync ∷ create_google_contact ∷ update_google_contact ∷ []) user
    ∷ can_if
        (show ∷ edit ∷ update ∷ update_announcement_subscription ∷ update_birthday_calendar_consent
          ∷ update_password ∷ [])
        user (has_id user_id)
    ∷ can_if (show ∷ create ∷ edit ∷ update ∷ []) event_participant (has_user_id user_id)
    ∷ can_if (show ∷ create ∷ edit ∷ update ∷ []) external_event_participant (has_user_id user_id)
    ∷ can (index ∷ show ∷ []) announcement
    ∷ can (index ∷ show ∷ []) external_event
    ∷ can (show ∷ []) academic_title
    ∷ can_if (add_me ∷ remove_me ∷ []) event (has_user_id user_id)
    ∷ can_if (add_me ∷ remove_me ∷ []) external_event (has_user_id user_id)
    ∷ can (index ∷ show ∷ upcoming ∷ date ∷ public_workingplan ∷ internal_workingplan ∷ []) event
    ∷ can (index ∷ file_stats ∷ mem_stats ∷ downloads ∷ []) statistic
    ∷ []

unfoldable pub file_admin_abilities : List Rule
file_admin_abilities =
    can (manage ∷ []) category ∷ can (manage ∷ []) directory ∷ can (manage ∷ []) attached_file ∷ []

unfoldable pub user_admin_abilities : List Rule
user_admin_abilities = can (manage ∷ []) user_role ∷ []

unfoldable pub working_plan_admin_abilities : List Rule
working_plan_admin_abilities =
    can (manage ∷ []) event
    ∷ can (manage ∷ []) event_participant
    ∷ can (manage ∷ []) external_event
    ∷ can (manage ∷ []) external_event_participant
    ∷ []

unfoldable pub lodges_admin_abilities : List Rule
lodges_admin_abilities = can (manage ∷ []) lodge ∷ can (manage ∷ []) officer ∷ []

unfoldable pub announcement_admin_abilities : List Rule
announcement_admin_abilities = can (manage ∷ []) announcement ∷ []

unfoldable pub application_admin_abilities : List Rule
application_admin_abilities =
    can (manage ∷ []) app_config
    ∷ can (manage ∷ []) academic_title
    ∷ can (manage ∷ []) district
    ∷ can (manage ∷ []) role
    ∷ can (manage ∷ []) user
    ∷ can (manage ∷ []) category
    ∷ can (manage ∷ []) lodge
    ∷ can (manage ∷ []) officer
    ∷ can (manage ∷ []) event
    ∷ can (manage ∷ []) external_event
    ∷ []

unfoldable pub member_of_council_abilities : List Rule
member_of_council_abilities =
    can (index ∷ file_stats ∷ user_stats ∷ user_file_stats ∷ space_stats ∷ []) statistic
    ∷ can (csv_export ∷ []) user
    ∷ can (index ∷ show ∷ accepted ∷ inactive ∷ declined ∷ []) seeker
    ∷ []

unfoldable pub worshipful_master_abilities : List Rule
unfolding announcement_admin_abilities file_admin_abilities lodges_admin_abilities
    working_plan_admin_abilities
worshipful_master_abilities =
    working_plan_admin_abilities
    ++ (announcement_admin_abilities
        ++ (file_admin_abilities ++ (lodges_admin_abilities ++ (can (manage ∷ []) seeker ∷ []))))

unfoldable pub dedicated_master_abilities : List Rule
dedicated_master_abilities = can (manage ∷ []) seeker ∷ []

unfoldable pub net_delegate_abilities : List Rule
unfolding file_admin_abilities user_admin_abilities
net_delegate_abilities =
    file_admin_abilities ++ (user_admin_abilities ++ (can (manage ∷ []) statistic ∷ []))

unfoldable pub secretary_abilities : List Rule
unfolding announcement_admin_abilities file_admin_abilities lodges_admin_abilities
    user_admin_abilities working_plan_admin_abilities
secretary_abilities =
    working_plan_admin_abilities
    ++ (announcement_admin_abilities
        ++ (lodges_admin_abilities
            ++ (file_admin_abilities
                ++ (user_admin_abilities ++ (can (manage ∷ []) statistic ∷ [])))))

unfoldable pub admin_abilities : List Rule
unfolding application_admin_abilities member_of_council_abilities net_delegate_abilities
    secretary_abilities user_admin_abilities worshipful_master_abilities
admin_abilities =
    worshipful_master_abilities
    ++ (secretary_abilities
        ++ (net_delegate_abilities
            ++ (user_admin_abilities
                ++ (application_admin_abilities
                    ++ (member_of_council_abilities
                        ++ (can (manage ∷ []) statistic ∷ can (impersonate ∷ []) user ∷ []))))))

unfoldable pub entered_apprentice_abilities : ℕ → List Rule
unfolding default_user_abilities
entered_apprentice_abilities user_id = default_user_abilities user_id

unfoldable pub fellow_craft_abilities : ℕ → List Rule
unfolding entered_apprentice_abilities
fellow_craft_abilities user_id = entered_apprentice_abilities user_id

unfoldable pub master_mason_abilities : ℕ → List Rule
unfolding fellow_craft_abilities
master_mason_abilities user_id = fellow_craft_abilities user_id

-- The dispatch table of `ROLE_ABILITY_BUILDERS`.
unfoldable pub role_table : ℕ → List (String × List Rule)
unfolding default_user_abilities file_admin_abilities user_admin_abilities
    working_plan_admin_abilities lodges_admin_abilities announcement_admin_abilities
    application_admin_abilities member_of_council_abilities worshipful_master_abilities
    dedicated_master_abilities net_delegate_abilities secretary_abilities admin_abilities
    entered_apprentice_abilities fellow_craft_abilities master_mason_abilities
role_table user_id =
    ("Admin", admin_abilities)
    ∷ ("Secretary", secretary_abilities)
    ∷ ("WorshipfulMaster", worshipful_master_abilities)
    ∷ ("DedicatedMaster", dedicated_master_abilities)
    ∷ ("NetDelegate", net_delegate_abilities)
    ∷ ("MemberOfCouncil", member_of_council_abilities)
    ∷ ("FileAdmin", file_admin_abilities)
    ∷ ("UserAdmin", user_admin_abilities)
    ∷ ("WorkingPlanAdmin", working_plan_admin_abilities)
    ∷ ("ApplicationAdmin", application_admin_abilities)
    ∷ ("AnnouncementAdmin", announcement_admin_abilities)
    ∷ ("EnteredApprentice", entered_apprentice_abilities user_id)
    ∷ ("FellowCraft", fellow_craft_abilities user_id)
    ∷ ("MasterMason", master_mason_abilities user_id)
    ∷ []

-- `ROLE_ABILITY_BUILDERS[roleName]?.(…)`: an unknown role name adds nothing.
unfoldable pub role_ability_builders : String → ℕ → List Rule
unfolding role_table
role_ability_builders role_name user_id = elim (find (λ e. e.0 == role_name) (role_table user_id)) [
  | none ↦ []
  | some (name, rules) ↦ rules
]
