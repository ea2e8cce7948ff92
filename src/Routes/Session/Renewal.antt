-- ===== src/Routes/Session/Renewal.antt =====
-- The end of a session: logout, and the reuse of a cookie.
use intern_logenhelfer_de.Base.{
  ℕ, ◌≡◌, refl, ◌∙◌, String, false, some, ◌==◌, string_eq, find-update_where, is_some, Bool-cases,
  inl, inr, ok, err, arith, eq_iff, All, true,
}
use intern_logenhelfer_de.External.{External}
use intern_logenhelfer_de.Http.{Thrown, refresh_token_reuse}
use intern_logenhelfer_de.Store.{Store, User, RefreshToken}
use intern_logenhelfer_de.Auth.RefreshToken.{
  find_token, mark_revoked, revoke_family, rotate_refresh_token,
}
use intern_logenhelfer_de.Auth.RefreshToken.Family.{IsValid, revoke_family-IsValid}
use intern_logenhelfer_de.Auth.RefreshToken.Revocation.{refusal, dead_row, rotate_replay}
use intern_logenhelfer_de.Auth.TokenConfig.{TokenConfig}
use intern_logenhelfer_de.Routes.Session.{
  refresh, refresh_error, refresh_failed, logout, revoke_family_for_raw_token,
}

module _ (x : External) (ttl : TokenConfig) where
  refresh-err :
      (raw next_raw : String) (now : ℕ) (s : Store) (e : Thrown)
      → (raw == "") ≡ false
      → (rotate_refresh_token x ttl.jwt_refresh_ttl_seconds raw next_raw now s).0 ≡ err e
      → (refresh x ttl (some raw) next_raw now s).0 ≡ refresh_error x ttl e
  unfolding refresh
  refresh-err raw next_raw now s e given failed = rw (given, failed, refresh) refl

  refresh-err_store :
      (raw next_raw : String) (now : ℕ) (s : Store) (e : Thrown)
      → (raw == "") ≡ false
      → (rotate_refresh_token x ttl.jwt_refresh_ttl_seconds raw next_raw now s).0 ≡ err e
      → (refresh x ttl (some raw) next_raw now s).1
        ≡ (rotate_refresh_token x ttl.jwt_refresh_ttl_seconds raw next_raw now s).1
  unfolding refresh
  refresh-err_store raw next_raw now s e given failed = rw (given, failed, refresh) refl

  refresh-ok :
      (raw next_raw : String) (now : ℕ) (s : Store) (u : User)
      → (raw == "") ≡ false
      → (rotate_refresh_token x ttl.jwt_refresh_ttl_seconds raw next_raw now s).0 ≡ ok (next_raw, u)
      → (refresh x ttl (some raw) next_raw now s).1
        ≡ (rotate_refresh_token x ttl.jwt_refresh_ttl_seconds raw next_raw now s).1
  unfolding refresh
  refresh-ok raw next_raw now s u given passed = rw (given, passed, refresh) refl

  refusal-failed : (r : RefreshToken) → refresh_error x ttl (refusal r) ≡ refresh_failed x ttl
  refusal-failed r = elim (Bool-cases (is_some r.consumed_at)) [
    | inl used ↦ rw used refl
    | inr unused ↦ rw unused refl
  ]

  logout-store :
      (raw : String) (now : ℕ) (s : Store) (r : RefreshToken)
      → (raw == "") ≡ false
      → find_token x raw s ≡ some r
      → (logout x (some raw) now s).1 ≡ revoke_family r.family_id now s
  unfolding logout revoke_family_for_raw_token
  logout-store raw now s r given found = rw (given, found, revoke_family_for_raw_token) refl

-- After a logout no token of that session, neither the one presented nor an older or newer one of
-- its family, renews it: the reply is 401 and the cookie is cleared, at any time.
pub logout-refresh :
    (x : External) (ttl : TokenConfig) (raw other next_raw : String) (now t : ℕ) (s : Store)
    (r q : RefreshToken)
    → IsValid s
    → (raw == "") ≡ false
    → (other == "") ≡ false
    → find_token x raw s ≡ some r
    → find_token x other s ≡ some q
    → q.family_id ≡ r.family_id
    → (refresh x ttl (some other) next_raw t (logout x (some raw) now s).1).0 ≡ refresh_failed x ttl
unfolding revoke_family
logout-refresh x ttl raw other next_raw now t s r q v given sent found known same =
    let moved =
      find-update_where (λ c. c.token_digest == x.digest other) (λ c. c.family_id == r.family_id)
        (mark_revoked now) (λ a. refl) s.refresh_tokens in
    let dead =
      dead_row x ttl.jwt_refresh_ttl_seconds other next_raw t (revoke_family r.family_id now s)
        (mark_revoked now q)
        (unfold revoke_family in (revoke_family-IsValid r.family_id now s v).keyed)
        (moved ∙ rw known (ground (arith, eq_iff q.family_id r.family_id))) (ground arith) in
    rw (logout-store x ttl raw now s r given found) (
      refresh-err x ttl other next_raw t (revoke_family r.family_id now s)
        (refusal (mark_revoked now q)) sent dead
      ∙ refusal-failed x ttl (mark_revoked now q))

-- A cookie that has been used once is of no further use: whoever sends it again is answered 401 with
-- the cookie cleared, and every token of the session, the newest included, is revoked.
pub refresh-replay :
    (x : External) (ttl : TokenConfig) (raw next_raw another : String) (now t : ℕ) (s : Store)
    (r : RefreshToken) (u : User)
    → IsValid s
    → (raw == "") ≡ false
    → find_token x raw s ≡ some r
    → (rotate_refresh_token x ttl.jwt_refresh_ttl_seconds raw next_raw now s).0 ≡ ok (next_raw, u)
    → let s' = (refresh x ttl (some raw) next_raw now s).1 in
      let (reply, s'') = refresh x ttl (some raw) another t s' in
      (reply ≡ refresh_failed x ttl)
      × All (λ q. q.family_id ≡ r.family_id → is_some q.revoked_at ≡ true) s''.refresh_tokens
refresh-replay x ttl raw next_raw another now t s r u v given found passed =
    let (reused, revoked) =
      rotate_replay x ttl.jwt_refresh_ttl_seconds raw next_raw another now t s r u v found passed in
    let s1 = (rotate_refresh_token x ttl.jwt_refresh_ttl_seconds raw next_raw now s).1 in
    rw (refresh-ok x ttl raw next_raw now s u given passed) (
      refresh-err x ttl raw another t s1 refresh_token_reuse given reused,
      rw (refresh-err_store x ttl raw another t s1 refresh_token_reuse given reused) revoked,
    )
