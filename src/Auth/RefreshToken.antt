-- ===== src/Auth/RefreshToken.antt =====
-- Refresh tokens: issue, rotate, revoke (api/src/auth/refreshToken.ts). A rotation is three
-- database calls with other requests between them, so its parts are functions of their own.
pub mod Rotation
pub mod Family
pub mod Revocation
pub mod Race
use intern_logenhelfer_de.Base.{
  ℕ, suc, ◌+◌, ◌*◌, String, Bool, true, false, not, ◌&&◌, Option, none, some, List, [], ◌∷◌, ◌++◌,
  ltb, ◌==◌, ok, err, Result, if◌then◌else◌, find, any, update_where, is_some, nat_eq, string_eq,
}
use intern_logenhelfer_de.External.{External}
use intern_logenhelfer_de.Http.{Thrown, refresh_token_invalid, refresh_token_reuse}
use intern_logenhelfer_de.Store.{Store, User, RefreshToken}

abbrev pub find_user : ℕ → Store → Option User
find_user id s = find (λ u. u.id == id) s.users

abbrev pub find_token : External → String → Store → Option RefreshToken
find_token x raw s = find (λ r. r.token_digest == x.digest raw) s.refresh_tokens

module _ (x : External) (ttl_seconds : ℕ) where
  -- The token and, where a family is not passed in, the family are what the generator drew.
  unfoldable pub issue_refresh_token : ℕ → String → String → ℕ → Store → Store
  issue_refresh_token user_id family_id raw_token now s =
      let row : RefreshToken = record {
        id = s.next_id;
        user_id = user_id;
        token_digest = x.digest raw_token;
        family_id = family_id;
        expires_at = now + ttl_seconds * 1000;
        consumed_at = none;
        revoked_at = none;
        created_at = now;
        updated_at = now;
      } in
      record s { refresh_tokens = s.refresh_tokens ++ row ∷ []; next_id = suc s.next_id }

-- The condition of the conditional `updateMany`.
abbrev pub is_consumable : ℕ → ℕ → RefreshToken → Bool
is_consumable id now r =
    r.id == id
    && (not (is_some r.consumed_at) && (not (is_some r.revoked_at) && ltb now r.expires_at))

abbrev pub mark_consumed : ℕ → RefreshToken → RefreshToken
mark_consumed now r = record r { consumed_at = some now; updated_at = now }

-- The consume step: whether a row was changed, and the store after it.
unfoldable pub consume : ℕ → ℕ → Store → Bool × Store
consume id now s = (
  any (is_consumable id now) s.refresh_tokens,
  record s {
    refresh_tokens = update_where (is_consumable id now) (mark_consumed now) s.refresh_tokens;
  },
)

abbrev pub mark_revoked : ℕ → RefreshToken → RefreshToken
mark_revoked now r = record r { revoked_at = some now }

unfoldable pub revoke_family : String → ℕ → Store → Store
revoke_family family_id now s = record s {
  refresh_tokens = update_where (λ r. r.family_id == family_id) (mark_revoked now) s.refresh_tokens;
}

unfoldable pub revoke_all_families_for_user : ℕ → ℕ → Store → Store
revoke_all_families_for_user user_id now s = record s {
  refresh_tokens =
      update_where (λ r. r.user_id == user_id && not (is_some r.revoked_at)) (mark_revoked now)
        s.refresh_tokens;
}

-- `current?.consumed_at !== null && current?.consumed_at !== undefined`
abbrev pub was_consumed : Option RefreshToken → Bool
was_consumed none = false
was_consumed (some r) = is_some r.consumed_at

-- No row was changed: the row is read again, and reuse revokes the family.
unfoldable pub lose : RefreshToken → ℕ → Store → Thrown × Store
unfolding revoke_family
lose r now s =
    if was_consumed (find (λ c. c.id == r.id) s.refresh_tokens)
    then (refresh_token_reuse, revoke_family r.family_id now s)
    else (refresh_token_invalid, s)

module _ (x : External) (ttl_seconds : ℕ) where
  -- The row was consumed by this call: the next token of the family is issued to its user.
  unfoldable pub win : RefreshToken → String → ℕ → Store → Result Thrown (String × User) × Store
  win r next_raw now s = elim (find_user r.user_id s) [
    | none ↦ (err refresh_token_invalid, s)
    | some user ↦ (
      ok (next_raw, user),
      issue_refresh_token x ttl_seconds r.user_id r.family_id next_raw now s,
    )
  ]

  unfoldable pub rotate_refresh_token :
      String → String → ℕ → Store → Result Thrown (String × User) × Store
  unfolding consume lose win issue_refresh_token
  rotate_refresh_token raw next_raw now s = elim (find_token x raw s) [
    | none ↦ (err refresh_token_invalid, s)
    | some r ↦
        let (won, s1) = consume r.id now s in
        let (thrown, s2) = lose r now s1 in if won then win r next_raw now s1 else (err thrown, s2)
  ]
