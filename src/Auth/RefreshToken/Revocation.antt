-- ===== src/Auth/RefreshToken/Revocation.antt =====
-- Replay, succession and revocation: which tokens are dead afterwards.
use intern_logenhelfer_de.Base.{
  ℕ, ◌+◌, ◌*◌, ◌<◌, ◌≡◌, refl, sym, ap, ◌∙◌, ◌≢◌, inl, inr, String, Bool, true, false, not, ◌&&◌,
  none, some, arith, lt→ltb, ◌==◌, ok, err, if◌then◌else◌, find, is_some, nat_eq, string_eq, All,
  All-update_where_new, eq_iff, eq_refl, Bool-cases, Option-cases, find-append_some,
  find-append_none, find-update_where,
}
use intern_logenhelfer_de.External.{External}
use intern_logenhelfer_de.Http.{Thrown, refresh_token_invalid, refresh_token_reuse}
use intern_logenhelfer_de.Store.{Store, User, RefreshToken}
use intern_logenhelfer_de.Auth.RefreshToken.{
  find_user, find_token, issue_refresh_token, is_consumable, mark_consumed, mark_revoked, consume,
  revoke_family, revoke_all_families_for_user, was_consumed, lose, win, rotate_refresh_token,
}
use intern_logenhelfer_de.Auth.RefreshToken.Rotation.{
  IsKeyed, is_live, answer, rotate_refresh_token_answer, consume_won, lose-consume,
}
use intern_logenhelfer_de.Auth.RefreshToken.Family.{IsValid, rotate-IsValid, revoke_all-IsValid}

-- The answer for a token that is not live.
abbrev pub refusal : RefreshToken → Thrown
refusal r = if is_some r.consumed_at then refresh_token_reuse else refresh_token_invalid

module _ (x : External) (ttl_seconds : ℕ) where
  pub dead_row :
      (raw next_raw : String) (now : ℕ) (s : Store) (r : RefreshToken)
      → IsKeyed s.refresh_tokens
      → find_token x raw s ≡ some r
      → is_live now r ≡ false
      → (rotate_refresh_token x ttl_seconds raw next_raw now s).0 ≡ err (refusal r)
  dead_row raw next_raw now s r k found dead =
      rotate_refresh_token_answer x ttl_seconds raw next_raw now s k ∙ rw found (rw dead)

  -- After all families of a user are revoked, no token of that user rotates any more, at any time;
  -- tokens of other users are found as before.
  pub revoke_all_families_for_user_lem :
      (user_id now t : ℕ) (raw next_raw : String) (s : Store) (r : RefreshToken)
      → IsValid s
      → find_token x raw s ≡ some r
      → let s' = revoke_all_families_for_user user_id now s in
        (r.user_id ≡ user_id
          → (rotate_refresh_token x ttl_seconds raw next_raw t s').0 ≡ err (refusal r))
        × (r.user_id ≢ user_id → find_token x raw s' ≡ some r)
  unfolding revoke_all_families_for_user
  revoke_all_families_for_user_lem user_id now t raw next_raw s r v found =
      let q : RefreshToken → Bool = λ r. r.user_id == user_id && not (is_some r.revoked_at) in
      let moved =
        find-update_where (λ r. r.token_digest == x.digest raw) q (mark_revoked now) (λ a. refl)
          s.refresh_tokens in
      let r' : RefreshToken = if q r then mark_revoked now r else r in
      (
        λ same.
            dead_row raw next_raw t _ r'
              (unfold revoke_all_families_for_user in (revoke_all-IsValid user_id now s v).keyed)
              (moved ∙ rw found) (ground arith)
            ∙ ground arith,
        λ ne. moved ∙ rw found (ground arith),
      )

  -- The store after a rotation that went through, and after one that did not.
  rotate_won :
      (raw next_raw : String) (now : ℕ) (s : Store) (r : RefreshToken) (u : User)
      → IsKeyed s.refresh_tokens
      → find_token x raw s ≡ some r
      → is_live now r ≡ true
      → find_user r.user_id s ≡ some u
      → (rotate_refresh_token x ttl_seconds raw next_raw now s).1
        ≡ issue_refresh_token x ttl_seconds r.user_id r.family_id next_raw now
            (consume r.id now s).1
  unfolding rotate_refresh_token
  rotate_won raw next_raw now s r u k found live known =
      let same : find_user r.user_id (consume r.id now s).1 ≡ some u = known in
      rw (found, rotate_refresh_token)
        (rw (consume_won x ttl_seconds raw now s r k found ∙ live) (rw (same, win)))

  rotate_lost :
      (raw next_raw : String) (now : ℕ) (s : Store) (r : RefreshToken)
      → IsKeyed s.refresh_tokens
      → find_token x raw s ≡ some r
      → is_live now r ≡ false
      → (rotate_refresh_token x ttl_seconds raw next_raw now s).1
        ≡ (lose r now (consume r.id now s).1).1
  unfolding rotate_refresh_token
  rotate_lost raw next_raw now s r k found dead =
      rw (found, rotate_refresh_token) (rw (consume_won x ttl_seconds raw now s r k found ∙ dead))

  won_parts :
      (next_raw : String) (now : ℕ) (s : Store) (r : RefreshToken) (u : User)
      → answer x ttl_seconds r next_raw now s ≡ ok (next_raw, u)
      → (is_live now r ≡ true) × (find_user r.user_id s ≡ some u)
  won_parts next_raw now s r u e = elim (Option-cases (find_user r.user_id s)) [
    | inl missing ↦ ground arith
    | inr (w, known) ↦ ground arith
  ]

  -- The row of a token that has just been rotated, and the row of its successor.
  spent_row :
      (raw next_raw : String) (now : ℕ) (s : Store) (r : RefreshToken)
      → find_token x raw s ≡ some r
      → is_live now r ≡ true
      → find_token x raw (
          issue_refresh_token x ttl_seconds r.user_id r.family_id next_raw now
            (consume r.id now s).1)
        ≡ some (mark_consumed now r)
  unfolding issue_refresh_token consume
  spent_row raw next_raw now s r found live =
      let p : RefreshToken → Bool = λ r. r.token_digest == x.digest raw in
      let moved =
        find-update_where p (is_consumable r.id now) (mark_consumed now) (λ a. refl)
          s.refresh_tokens in
      find-append_some p _ _ (mark_consumed now r) (moved ∙ rw found (ground arith))

  IsDead : String → RefreshToken → Type 0
  IsDead family q = q.family_id ≡ family → is_some q.revoked_at ≡ true

  reuse_revokes :
      (r : RefreshToken) (now : ℕ) (s : Store)
      → (lose r now s).0 ≡ refresh_token_reuse
      → All
          (λ q. q.family_id ≡ r.family_id → is_some q.revoked_at ≡ true)
          (lose r now s).1.refresh_tokens
  unfolding lose revoke_family
  reuse_revokes r now s e =
      elim (Bool-cases (was_consumed (find (λ c. c.id == r.id) s.refresh_tokens))) [
        | inl used ↦ rw used (
            All-update_where_new (λ q. q.family_id ≡ r.family_id → is_some q.revoked_at ≡ true)
              (λ c. c.family_id == r.family_id) (mark_revoked now)
              (λ c h. ground (arith, eq_iff c.family_id r.family_id)) s.refresh_tokens)
        | inr fresh ↦ ground arith
      ]

  -- Presenting a rotated token again is answered by `reuse`, whenever it happens, and every token of
  -- its family, the newest included, is revoked then.
  pub rotate_replay :
      (raw next_raw another : String) (now t : ℕ) (s : Store) (r : RefreshToken) (u : User)
      → IsValid s
      → find_token x raw s ≡ some r
      → (rotate_refresh_token x ttl_seconds raw next_raw now s).0 ≡ ok (next_raw, u)
      → let s' = (rotate_refresh_token x ttl_seconds raw next_raw now s).1 in
        let (result, s'') = rotate_refresh_token x ttl_seconds raw another t s' in
        (result ≡ err refresh_token_reuse)
        × All (λ q. q.family_id ≡ r.family_id → is_some q.revoked_at ≡ true) s''.refresh_tokens
  rotate_replay raw next_raw another now t s r u v found e =
      let s' = (rotate_refresh_token x ttl_seconds raw next_raw now s).1 in
      let (live, known) = won_parts next_raw now s r u (
        sym (rotate_refresh_token_answer x ttl_seconds raw next_raw now s v.keyed ∙ rw found)
        ∙ e) in
      let v' = rotate-IsValid x ttl_seconds raw next_raw now s v in
      let spent : find_token x raw s' ≡ some (mark_consumed now r) =
        ap (find_token x raw) (rotate_won raw next_raw now s r u v.keyed found live known)
        ∙ spent_row raw next_raw now s r found live in
      (
        dead_row raw another t s' (mark_consumed now r) v'.keyed spent refl,
        rw (rotate_lost raw another t s' (mark_consumed now r) v'.keyed spent refl) (
            reuse_revokes (mark_consumed now r) t (consume r.id t s').1
              (lose-consume x ttl_seconds raw t s' (mark_consumed now r) v'.keyed spent refl)),
      )

  abbrev successor_row : RefreshToken → String → ℕ → Store → RefreshToken
  successor_row r next_raw now s = record {
    id = s.next_id;
    user_id = r.user_id;
    token_digest = x.digest next_raw;
    family_id = r.family_id;
    expires_at = now + ttl_seconds * 1000;
    consumed_at = none;
    revoked_at = none;
    created_at = now;
    updated_at = now;
  }

  successor_found :
      (next_raw : String) (now : ℕ) (s : Store) (r : RefreshToken)
      → find_token x next_raw s ≡ none
      → find_token x next_raw (
          issue_refresh_token x ttl_seconds r.user_id r.family_id next_raw now
            (consume r.id now s).1)
        ≡ some (successor_row r next_raw now s)
  unfolding issue_refresh_token consume
  successor_found next_raw now s r fresh =
      let p : RefreshToken → Bool = λ r. r.token_digest == x.digest next_raw in
      let moved =
        find-update_where p (is_consumable r.id now) (mark_consumed now) (λ a. refl)
          s.refresh_tokens in
      find-append_none p _ _ (moved ∙ rw fresh) ∙ rw eq_refl

  -- The token that a rotation hands out, if its digest is new, is one of the same user and of the
  -- same family, and rotates in turn until it expires.
  pub rotate_successor :
      (raw next_raw another : String) (now t : ℕ) (s : Store) (r : RefreshToken) (u : User)
      → IsValid s
      → find_token x raw s ≡ some r
      → find_token x next_raw s ≡ none
      → (rotate_refresh_token x ttl_seconds raw next_raw now s).0 ≡ ok (next_raw, u)
      → t < now + ttl_seconds * 1000
      → let s' = (rotate_refresh_token x ttl_seconds raw next_raw now s).1 in
        ((q : RefreshToken) × (find_token x next_raw s' ≡ some q)
          × (q.family_id ≡ r.family_id)
          × (q.user_id ≡ r.user_id))
        × ((rotate_refresh_token x ttl_seconds next_raw another t s').0 ≡ ok (another, u))
  rotate_successor raw next_raw another now t s r u v found fresh e early =
      let s' = (rotate_refresh_token x ttl_seconds raw next_raw now s).1 in
      let (live, known) = won_parts next_raw now s r u (
        sym (rotate_refresh_token_answer x ttl_seconds raw next_raw now s v.keyed ∙ rw found)
        ∙ e) in
      let store = rotate_won raw next_raw now s r u v.keyed found live known in
      let v' = rotate-IsValid x ttl_seconds raw next_raw now s v in
      let next_found = ap (find_token x next_raw) store ∙ successor_found next_raw now s r fresh in
      let next_user : find_user r.user_id s' ≡ some u =
        ap (find_user r.user_id) store ∙ unfold issue_refresh_token consume in known in
      (
        (successor_row r next_raw now s, next_found, refl, refl),
        rotate_refresh_token_answer x ttl_seconds next_raw another t s' v'.keyed
            ∙ rw next_found (rw (lt→ltb t _ early, next_user)),
      )
