-- ===== src/Tests/Sessions.antt =====
-- Logins, tokens and resets on the small database.
use intern_logenhelfer_de.Base.{
  ℕ, ◌-◌, ◌*◌, ◌≡◌, ◌≢◌, ◌≤◌, refl, arith, String, true, false, not, ◌&&◌, none, some, List, [],
  ◌∷◌, All, ok, err, is_some, count_where, nat_eq,
}
use intern_logenhelfer_de.Http.{refresh_token_reuse, empty}
use intern_logenhelfer_de.Auth.Lockout.{is_locked_out}
use intern_logenhelfer_de.Auth.Lockout.Throttle.{failures, last_of}
use intern_logenhelfer_de.Auth.Jwt.{verify_access_token}
use intern_logenhelfer_de.Auth.Middleware.{Request, authenticate_api_user}
use intern_logenhelfer_de.Auth.Middleware.Scopes.{authenticate-passed, IsAdmitted, header_of}
use intern_logenhelfer_de.Auth.RefreshToken.{
  find_token, rotate_refresh_token, revoke_all_families_for_user,
}
use intern_logenhelfer_de.Auth.RefreshToken.Family.{IsValid}
use intern_logenhelfer_de.Auth.RefreshToken.Race.{run, present_all, has_won, race_one_winner}
use intern_logenhelfer_de.Auth.RefreshToken.Revocation.{
  refusal, rotate_replay, rotate_successor, revoke_all_families_for_user_lem,
}
use intern_logenhelfer_de.Routes.Grant.{plain}
use intern_logenhelfer_de.Routes.PasswordReset.{reset_for, bad_link}
use intern_logenhelfer_de.Routes.PasswordReset.Single.{reset_for_once}
use intern_logenhelfer_de.Routes.Session.Renewal.{logout-refresh}
use intern_logenhelfer_de.Routes.Session.{
  refresh, logout, refresh_failed, LoginRequest, login_as, invalid_credentials, password_valid,
  find_email,
}
use intern_logenhelfer_de.Routes.Session.Guessing.{
  Guess, login_guesses, comparisons, guess_times, login_guesses_bound,
}
use intern_logenhelfer_de.Routes.Session.Login.{is_session, is_pending, unchallenged, login_as_lem}
use intern_logenhelfer_de.Mfa.Status.{is_mfa_setup_required_for}
use intern_logenhelfer_de.Authz.Ability.{build_ability, load_user_role_names}
use intern_logenhelfer_de.Tests.Data.{packages, ttl, draws, member, token_row, store}

abbrev login_request : LoginRequest
login_request = record {
  email = some "a@b.de";
  password = some "geheim12";
  device_token = none;
  ip = none;
}

login_as_lem_example :
    let (reply, _) = login_as packages ttl login_request "a@b.de" "geheim12" draws 7 store in
    let right =
      not (is_locked_out "a@b.de" 7 store)
      && password_valid packages (find_email "a@b.de" store) "geheim12" in
    let passes = unchallenged packages login_request (find_email "a@b.de" store) 7 store in
    (is_session reply ≡ (right && passes))
    × (is_pending reply ≡ (right && not passes))
    × (right ≡ false → reply ≡ invalid_credentials)
login_as_lem_example = login_as_lem packages ttl login_request "a@b.de" "geheim12" draws 7 store

abbrev guess : String → ℕ → Guess
guess password t = record { request = login_request; password = password; draws = draws; at = t }

abbrev guesses : List Guess
guesses = guess "falsch" 10 ∷ guess "12345678" 20 ∷ []

login_guesses_bound_example :
    (30_000 * (comparisons packages ttl "a@b.de" guesses store - 5)
      ≤ last_of 0 (guess_times guesses) - 0)
    × (failures "a@b.de" (login_guesses packages ttl "a@b.de" guesses store)
        ≡ comparisons packages ttl "a@b.de" guesses store)
login_guesses_bound_example =
    login_guesses_bound packages ttl "a@b.de" 0 guesses store refl (omega arith, (omega arith, tt))
      (refl, (refl, tt))

store-IsValid : IsValid store
store-IsValid = record { keyed = (tt, tt); below = (omega arith, tt) }

race_one_winner_example :
    count_where
      (has_won 0)
      (run packages 604_800
        ((0, "t1", 7) ∷ (1, "t2", 8) ∷ (0, "t1", 9) ∷ (1, "t2", 9) ∷ [])
        (present_all ("t0" ∷ "t0" ∷ []))
        store).0
    ≤ 1
race_one_winner_example =
    race_one_winner packages 604_800 0
      ((0, "t1", 7) ∷ (1, "t2", 8) ∷ (0, "t1", 9) ∷ (1, "t2", 9) ∷ []) ("t0" ∷ "t0" ∷ []) store
      (omega arith) (omega arith)

rotate_replay_example :
    let s' = (rotate_refresh_token packages 604_800 "t0" "t1" 7 store).1 in
    let (result, s'') = rotate_refresh_token packages 604_800 "t0" "t2" 9 s' in
    (result ≡ err refresh_token_reuse)
    × All (λ q. q.family_id ≡ token_row.family_id → is_some q.revoked_at ≡ true) s''.refresh_tokens
unfolding rotate_refresh_token
rotate_replay_example =
    rotate_replay packages 604_800 "t0" "t1" "t2" 7 9 store token_row member store-IsValid refl refl

rotate_successor_example :
    let s' = (rotate_refresh_token packages 604_800 "t0" "t1" 7 store).1 in
    (rotate_refresh_token packages 604_800 "t1" "t2" 9 s').0 ≡ ok ("t2", member)
unfolding rotate_refresh_token
rotate_successor_example =
    (rotate_successor packages 604_800 "t0" "t1" "t2" 7 9 store token_row member store-IsValid refl
      refl refl (omega arith)).1

revoke_all_families_for_user_lem_example :
    let s' = revoke_all_families_for_user 1 7 store in
    (token_row.user_id ≡ 1
      → (rotate_refresh_token packages 604_800 "t0" "t1" 9 s').0 ≡ err (refusal token_row))
    × (token_row.user_id ≢ 1 → find_token packages "t0" s' ≡ some token_row)
revoke_all_families_for_user_lem_example =
    revoke_all_families_for_user_lem packages 604_800 1 7 9 "t0" "t1" store token_row store-IsValid
      refl

reset_for_once_example :
    let (reply, s') = reset_for packages 3600 "reset" "geheim34" "geheim34" "salz" 7 store in
    (reply ≡ plain 200 empty)
    × All (λ r. r.user_id ≡ member.id → is_some r.revoked_at ≡ true) s'.refresh_tokens
    × All (λ v. v.id ≡ member.id → packages.compare "geheim34" v.encrypted_password ≡ true) s'.users
    × ((reset_for packages 3600 "reset" "neu" "neu" "salz" 9 s').0 ≡ bad_link)
reset_for_once_example =
    reset_for_once packages 3600 7 9 "reset" "geheim34" "salz" "neu" "salz" store member refl
      (λ h. refl, (λ h. cc, tt)) refl refl refl

abbrev request : Request
request = record {
  authorization = header_of "access";
  method = "GET";
  original_url = "/api/v1/events?page=1";
}

-- A member without a factor reads the state of the set-up.
authenticate-passed_example :
    IsAdmitted packages [] []
      (record request { original_url = "/api/v1/mfa/status?now=1" })
      7
      (record store { totp_credentials = [] })
      member
      (build_ability (some member.id) (load_user_role_names member.id [] []))
      none
unfolding verify_access_token authenticate_api_user is_mfa_setup_required_for
authenticate-passed_example =
    (authenticate-passed packages [] []
        (record request { original_url = "/api/v1/mfa/status?now=1" }) 7
        (record store { totp_credentials = [] }) member
        (build_ability (some member.id) (load_user_role_names member.id [] [])) none).0
      refl

logout-refresh_example :
    (refresh packages ttl (some "t0") "t1" 9 (logout packages (some "t0") 7 store).1).0
    ≡ refresh_failed packages ttl
logout-refresh_example =
    logout-refresh packages ttl "t0" "t0" "t1" 7 9 store token_row token_row store-IsValid refl refl
      refl refl refl
