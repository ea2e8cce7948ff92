-- ===== src/Auth/RefreshToken/Rotation.antt =====
-- What a rotation answers on every branch, and how rotations follow one another.
use intern_logenhelfer_de.Base.{
  ℕ, ◌≡◌, refl, subst, ◌∙◌, ◌≢◌, inl, inr, String, Bool, true, false, not, ◌&&◌, none, some, List,
  [], ◌∷◌, arith, ltb, ◌==◌, ok, err, Result, if◌then◌else◌, find, any, update_where, is_some,
  nat_eq, string_eq, All, All-find, Bool-cases, Option-cases, HasKeys,
}
use intern_logenhelfer_de.External.{External}
use intern_logenhelfer_de.Http.{Thrown, refresh_token_invalid, refresh_token_reuse}
use intern_logenhelfer_de.Store.{Store, User, RefreshToken}
use intern_logenhelfer_de.Auth.RefreshToken.{
  find_user, find_token, is_consumable, mark_consumed, consume, lose, win, rotate_refresh_token,
}

-- Ids are a primary key.
abbrev pub IsKeyed : List RefreshToken → Type 0
IsKeyed rows = HasKeys (λ r. r.id) rows

-- The tokens that can still be rotated.
abbrev pub is_live : ℕ → RefreshToken → Bool
is_live now r = not (is_some r.consumed_at) && (not (is_some r.revoked_at) && ltb now r.expires_at)

find_id :
    (p : RefreshToken → Bool) (rows : List RefreshToken) (r : RefreshToken)
    → IsKeyed rows
    → find p rows ≡ some r
    → find (λ c. c.id == r.id) rows ≡ some r
find_id p [] r k e = cc
find_id p (x ∷ rows) r (apart, k) e = elim (Bool-cases (p x)) [
  | inl fits ↦ ground arith
  | inr other ↦
      let found : find p rows ≡ some r = ground arith in
      ground (arith, All-find (λ q. q.id ≢ x.id) p rows r apart found, find_id p rows r k found)
]

any_absent :
    (id now : ℕ) (rows : List RefreshToken)
    → All (λ q. q.id ≢ id) rows
    → any (is_consumable id now) rows ≡ false
any_absent id now [] h = refl
any_absent id now (x ∷ rows) h = ground (arith, any_absent id now rows h.1)

any_keyed :
    (now : ℕ) (rows : List RefreshToken) (r : RefreshToken)
    → IsKeyed rows
    → find (λ c. c.id == r.id) rows ≡ some r
    → any (is_consumable r.id now) rows ≡ is_live now r
any_keyed now [] r k e = cc
any_keyed now (x ∷ rows) r (apart, k) e = elim (Bool-cases (x.id == r.id)) [
  | inl same ↦
      let eq : x ≡ r = ground arith in
      let gone : any (is_consumable r.id now) rows ≡ false =
        subst (λ t. any (is_consumable t.id now) rows ≡ false) eq
          (any_absent x.id now rows apart) in
      ground (arith, gone)
  | inr other ↦ ground (arith, any_keyed now rows r k)
]

module _ (x : External) (ttl_seconds : ℕ) where
  abbrev Outcome : Type 0
  Outcome = Result Thrown (String × User)

  -- The answer for a known token: the next token if it is live and its user exists, `reuse` if it was
  -- consumed before, `invalid` if it is revoked, expired or orphaned.
  abbrev pub answer : RefreshToken → String → ℕ → Store → Outcome
  answer r next_raw now s =
      if is_live now r
      then elim (find_user r.user_id s) [
        | none ↦ err refresh_token_invalid
        | some user ↦ ok (next_raw, user)
      ]
      else err (if is_some r.consumed_at then refresh_token_reuse else refresh_token_invalid)

  -- Where no row can be consumed, the store is as it was.
  update_where_none :
      (id now : ℕ) (rows : List RefreshToken)
      → any (is_consumable id now) rows ≡ false
      → update_where (is_consumable id now) (mark_consumed now) rows ≡ rows
  update_where_none id now [] h = refl
  update_where_none id now (r ∷ rows) h = ground (arith, update_where_none id now rows)

  pub consume_won :
      (raw : String) (now : ℕ) (s : Store) (r : RefreshToken)
      → IsKeyed s.refresh_tokens
      → find_token x raw s ≡ some r
      → (consume r.id now s).0 ≡ is_live now r
  unfolding consume
  consume_won raw now s r k e =
      any_keyed now s.refresh_tokens r k
        (find_id (λ t. t.token_digest == x.digest raw) s.refresh_tokens r k e)

  pub lose-consume :
      (raw : String) (now : ℕ) (s : Store) (r : RefreshToken)
      → IsKeyed s.refresh_tokens
      → find_token x raw s ≡ some r
      → is_live now r ≡ false
      → (lose r now (consume r.id now s).1).0
        ≡ (if is_some r.consumed_at then refresh_token_reuse else refresh_token_invalid)
  unfolding lose consume
  lose-consume raw now s r k e dead =
      let found = find_id (λ t. t.token_digest == x.digest raw) s.refresh_tokens r k e in
      let idle : any (is_consumable r.id now) s.refresh_tokens ≡ false =
        any_keyed now s.refresh_tokens r k found ∙ dead in
      rw (update_where_none r.id now s.refresh_tokens idle) (rw found (ground arith))

  win-answer :
      (r : RefreshToken) (next_raw : String) (now : ℕ) (s s' : Store)
      → is_live now r ≡ true
      → find_user r.user_id s' ≡ find_user r.user_id s
      → (win x ttl_seconds r next_raw now s').0 ≡ answer r next_raw now s
  unfolding win
  win-answer r next_raw now s s' live same = elim (Option-cases (find_user r.user_id s)) [
    | inl missing ↦ rw (live, missing) (rw (same ∙ missing, win))
    | inr (u, found) ↦ rw (live, found) (rw (same ∙ found, win))
  ]

  -- A rotation of an unknown token is `invalid`; of a known one it answers by the row alone, on all
  -- branches.
  pub rotate_refresh_token_answer :
      (raw next_raw : String) (now : ℕ) (s : Store)
      → IsKeyed s.refresh_tokens
      → (rotate_refresh_token x ttl_seconds raw next_raw now s).0 ≡ elim (find_token x raw s) [
        | none ↦ err refresh_token_invalid
        | some r ↦ answer r next_raw now s
      ]
  unfolding rotate_refresh_token
  rotate_refresh_token_answer raw next_raw now s k = elim (Option-cases (find_token x raw s)) [
    | inl missing ↦ rw missing (rw (missing, rotate_refresh_token))
    | inr (r, found) ↦ rw found (
        rw (found, rotate_refresh_token)
          (elim (Bool-cases (is_live now r)) [
            | inl live ↦
                rw (consume_won raw now s r k found ∙ live)
                  (win-answer r next_raw now s _ live refl)
            | inr dead ↦ rw (
              consume_won raw now s r k found ∙ dead,
              dead,
              lose-consume raw now s r k found dead,
            )
          ]))
  ]
