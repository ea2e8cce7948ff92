-- ===== src/Tests/Roles.antt =====
-- Abilities and visibility for some roles.
use intern_logenhelfer_de.Base.{◌≡◌, not, ◌&&◌, ◌||◌, none, some, [], ◌∷◌, any, ◌==◌, nat_eq}
use intern_logenhelfer_de.Authz.Ability.{build_ability, is_admin, is_true, to_user_subject}
use intern_logenhelfer_de.Authz.Ability.Laws.{base_fits, can-build_ability, can-impersonate}
use intern_logenhelfer_de.Authz.Grants.{role_ability_builders}
use intern_logenhelfer_de.Authz.Rules.{Target, fits, impersonate, event, create}
use intern_logenhelfer_de.Tests.Data.{casl, other_member}

can-impersonate_example :
    casl.can
      (build_ability (some 1) ("MasterMason" ∷ "Admin" ∷ []))
      impersonate
      (to_user_subject other_member ("FellowCraft" ∷ []))
    ≡ (is_admin ("MasterMason" ∷ "Admin" ∷ [])
        && (not (is_true other_member.deleted)
            && (not (1 == other_member.id) && not (is_admin ("FellowCraft" ∷ [])))))
can-impersonate_example =
    can-impersonate casl 1 ("MasterMason" ∷ "Admin" ∷ []) ("FellowCraft" ∷ []) other_member

abbrev event_type : Target
event_type = record { subject = event; fields = none }

can-build_ability_example :
    casl.can (build_ability (some 1) ("MasterMason" ∷ "Secretary" ∷ [])) create event_type ≡ (
      base_fits create event_type 1
      || any
          (λ n. any (fits create event_type) (role_ability_builders n 1))
          ("MasterMason" ∷ "Secretary" ∷ []))
can-build_ability_example =
    can-build_ability casl 1 ("MasterMason" ∷ "Secretary" ∷ []) create event_type (λ h. cc)
