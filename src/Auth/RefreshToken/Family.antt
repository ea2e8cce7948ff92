-- ===== src/Auth/RefreshToken/Family.antt =====
-- The primary key of the tokens, through every operation on them.
use intern_logenhelfer_de.Base.{
  ℕ, suc, ◌<◌, refl, inl, inr, String, not, ◌&&◌, arith, ◌==◌, find, is_some, nat_eq, string_eq,
  All, All-append, All-map, Bool-cases, Option-cases, update_where-HasKeys, append-HasKeys,
  update_where_below,
}
use intern_logenhelfer_de.External.{External}
use intern_logenhelfer_de.Store.{Store, RefreshToken}
use intern_logenhelfer_de.Auth.RefreshToken.{
  find_user, find_token, issue_refresh_token, is_consumable, mark_consumed, mark_revoked, consume,
  revoke_family, revoke_all_families_for_user, was_consumed, lose, win, rotate_refresh_token,
}
use intern_logenhelfer_de.Auth.RefreshToken.Rotation.{IsKeyed}

-- Ids are unique and below the sequence.
pub record IsValid (s : Store) : Type 0 where
  pub keyed : IsKeyed s.refresh_tokens
  pub below : All (λ r. r.id < s.next_id) s.refresh_tokens

pub consume-IsValid : (id now : ℕ) (s : Store) → IsValid s → IsValid (consume id now s).1
unfolding consume
consume-IsValid id now s v = record {
  keyed =
      update_where-HasKeys (λ r. r.id) (is_consumable id now) (mark_consumed now) (λ r. refl) _
        v.keyed;
  below =
      update_where_below (λ r. r.id) (is_consumable id now) (mark_consumed now) (λ r. refl) _ _
        v.below;
}

pub revoke_family-IsValid :
    (family : String) (now : ℕ) (s : Store) → IsValid s → IsValid (revoke_family family now s)
unfolding revoke_family
revoke_family-IsValid family now s v = record {
  keyed =
      update_where-HasKeys (λ r. r.id) (λ r. r.family_id == family) (mark_revoked now) (λ r. refl) _
        v.keyed;
  below =
      update_where_below (λ r. r.id) (λ r. r.family_id == family) (mark_revoked now) (λ r. refl) _ _
        v.below;
}

pub revoke_all-IsValid :
    (user now : ℕ) (s : Store) → IsValid s → IsValid (revoke_all_families_for_user user now s)
unfolding revoke_all_families_for_user
revoke_all-IsValid user now s v = record {
  keyed =
      update_where-HasKeys (λ r. r.id) (λ r. r.user_id == user && not (is_some r.revoked_at))
        (mark_revoked now) (λ r. refl) _ v.keyed;
  below =
      update_where_below (λ r. r.id) (λ r. r.user_id == user && not (is_some r.revoked_at))
        (mark_revoked now) (λ r. refl) _ _ v.below;
}

module _ (x : External) (ttl_seconds : ℕ) where
  pub issue-IsValid :
      (user : ℕ) (family raw : String) (now : ℕ) (s : Store)
      → IsValid s
      → IsValid (issue_refresh_token x ttl_seconds user family raw now s)
  unfolding issue_refresh_token
  issue-IsValid user family raw now s v = record {
    keyed = append-HasKeys (λ r. r.id) s.next_id s.refresh_tokens _ refl v.keyed v.below;
    below =
        All-append (λ r. r.id < suc s.next_id) s.refresh_tokens _
          (All-map (λ r. r.id < s.next_id) {Q = λ r. r.id < suc s.next_id} (λ r h. omega arith)
            s.refresh_tokens v.below)
          (omega arith, tt);
  }

  lose-IsValid : (r : RefreshToken) (now : ℕ) (s : Store) → IsValid s → IsValid (lose r now s).1
  unfolding lose
  lose-IsValid r now s v =
      elim (Bool-cases (was_consumed (find (λ c. c.id == r.id) s.refresh_tokens))) [
        | inl used ↦ rw used (revoke_family-IsValid r.family_id now s v)
        | inr fresh ↦ rw fresh v
      ]

  win-IsValid :
      (r : RefreshToken) (next_raw : String) (now : ℕ) (s : Store)
      → IsValid s
      → IsValid (win x ttl_seconds r next_raw now s).1
  win-IsValid r next_raw now s v = elim (Option-cases (find_user r.user_id s)) [
    | inl missing ↦ unfold win in rw (missing, win) v
    | inr (u, found) ↦
        unfold win in rw (found, win) (issue-IsValid r.user_id r.family_id next_raw now s v)
  ]

  -- A rotation keeps the primary key, however it ends.
  pub rotate-IsValid :
      (raw next_raw : String) (now : ℕ) (s : Store)
      → IsValid s
      → IsValid (rotate_refresh_token x ttl_seconds raw next_raw now s).1
  unfolding rotate_refresh_token
  rotate-IsValid raw next_raw now s v = elim (Option-cases (find_token x raw s)) [
    | inl missing ↦ rw (missing, rotate_refresh_token) v
    | inr (r, found) ↦
        rw (found, rotate_refresh_token)
          (elim (Bool-cases (consume r.id now s).0) [
            | inl won ↦ rw won (win-IsValid r next_raw now _ (consume-IsValid r.id now s v))
            | inr lost ↦ rw lost (lose-IsValid r now _ (consume-IsValid r.id now s v))
          ])
  ]
