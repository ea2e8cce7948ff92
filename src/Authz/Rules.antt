-- ===== src/Authz/Rules.antt =====
-- The actions, the subjects and the rules of ability.ts, and the decision that @casl/ability makes
-- from them, by its documented laws.
use intern_logenhelfer_de.Base.{
  ℕ, ◌≡◌, Bool, true, false, not, ◌&&◌, ◌||◌, Option, none, some, List, [], ◌∷◌, ◌++◌, any, ◌==◌,
  nat_eq, if◌then◌else◌,
}

pub data Action : Type 0 where
  manage google_sync create_google_contact update_google_contact show edit : Action
  update update_announcement_subscription update_birthday_calendar_consent update_password create
        index :
      Action
  add_me remove_me upcoming date public_workingplan internal_workingplan : Action
  download members_list phone_list birthday_list members_of_council file_io_link : Action
  file_stats mem_stats downloads destroy csv_export user_stats : Action
  user_file_stats space_stats accepted inactive declined workingplan : Action
  accept_gdpr impersonate : Action

pub data SubjectName : Type 0 where
  user event_participant external_event_participant announcement external_event academic_title :
      SubjectName
  event category directory attached_file statistic user_role : SubjectName
  seeker app_config district role lodge officer : SubjectName
  all_subjects : SubjectName

-- Each action and each subject by a number, to compare them.
abbrev pub action_code : Action → ℕ
action_code manage = 0
action_code google_sync = 1
action_code create_google_contact = 2
action_code update_google_contact = 3
action_code show = 4
action_code edit = 5
action_code update = 6
action_code update_announcement_subscription = 7
action_code update_birthday_calendar_consent = 8
action_code update_password = 9
action_code create = 10
action_code index = 11
action_code add_me = 12
action_code remove_me = 13
action_code upcoming = 14
action_code date = 15
action_code public_workingplan = 16
action_code internal_workingplan = 17
action_code download = 18
action_code members_list = 19
action_code phone_list = 20
action_code birthday_list = 21
action_code members_of_council = 22
action_code file_io_link = 23
action_code file_stats = 24
action_code mem_stats = 25
action_code downloads = 26
action_code destroy = 27
action_code csv_export = 28
action_code user_stats = 29
action_code user_file_stats = 30
action_code space_stats = 31
action_code accepted = 32
action_code inactive = 33
action_code declined = 34
action_code workingplan = 35
action_code accept_gdpr = 36
action_code impersonate = 37

abbrev pub subject_code : SubjectName → ℕ
subject_code user = 0
subject_code event_participant = 1
subject_code external_event_participant = 2
subject_code announcement = 3
subject_code external_event = 4
subject_code academic_title = 5
subject_code event = 6
subject_code category = 7
subject_code directory = 8
subject_code attached_file = 9
subject_code statistic = 10
subject_code user_role = 11
subject_code seeker = 12
subject_code app_config = 13
subject_code district = 14
subject_code role = 15
subject_code lodge = 16
subject_code officer = 17
subject_code all_subjects = 18

-- The conditions objects that ability.ts writes.
pub data Condition : Type 0 where
  has_id has_user_id : ℕ → Condition
  is_deleted is_admin_account : Condition

pub record Rule : Type 0 where
  pub inverted : Bool
  pub actions : List Action
  pub subject : SubjectName
  pub condition : Option Condition

-- What is asked about: a subject type, or an object with the fields that conditions look at.
pub record Fields : Type 0 where
  pub id : Option ℕ
  pub user_id : Option ℕ
  pub deleted : Bool
  pub admin : Bool

pub record Target : Type 0 where
  pub subject : SubjectName
  pub fields : Option Fields

abbrev pub is_number : ℕ → Option ℕ → Bool
is_number n none = false
is_number n (some m) = m == n

abbrev pub field_matches : Condition → Fields → Bool
field_matches (has_id n) f = is_number n f.id
field_matches (has_user_id n) f = is_number n f.user_id
field_matches is_deleted f = f.deleted
field_matches is_admin_account f = f.admin

-- A rule with no condition fits every target; one with a condition fits the objects whose fields
-- match it, and a bare subject type if the rule grants.
abbrev pub condition_matches : Bool → Option Condition → Option Fields → Bool
condition_matches inverted none f = true
condition_matches inverted (some c) none = not inverted
condition_matches inverted (some c) (some f) = field_matches c f

abbrev pub action_listed : Action → List Action → Bool
action_listed a actions =
    any (λ b. action_code b == action_code manage || action_code b == action_code a) actions

abbrev pub subject_fits : SubjectName → SubjectName → Bool
subject_fits wanted ruled =
    subject_code ruled == subject_code all_subjects || subject_code ruled == subject_code wanted

abbrev pub fits : Action → Target → Rule → Bool
fits a t r =
    action_listed a r.actions
    && (subject_fits t.subject r.subject && condition_matches r.inverted r.condition t.fields)

-- `ability.can` of @casl/ability: `manage` stands for every action and `all` for every subject, and
-- the rules are scanned from the one defined last, until one fits.
pub record Casl : Type 0 where
  pub can : List Rule → Action → Target → Bool
  pub can-nil : (a : Action) (t : Target) → can [] a t ≡ false
  pub can-append :
      (rules : List Rule) (r : Rule) (a : Action) (t : Target)
      → can (rules ++ r ∷ []) a t ≡ (if fits a t r then not r.inverted else can rules a t)
