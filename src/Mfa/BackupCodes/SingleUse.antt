-- ===== src/Mfa/BackupCodes/SingleUse.antt =====
-- A backup code opens one session.
use mathlib.Core.Bool.{or-true}
use intern_logenhelfer_de.Base.{
  ℕ, suc, ◌+◌, ◌≡◌, ◌≢◌, refl, ap, ◌∙◌, subst, String, Bool, true, false, not, ◌&&◌, some, List, [],
  ◌∷◌, ◌++◌, ◌==◌, nat_eq, find, select, any, update_where, arith, count_where, find-select,
  find-any, Option-cases, Bool-cases, inl, inr, any-append, All-find, length, count_where-append,
  HasKeys, update_absent,
}
use intern_logenhelfer_de.External.{External}
use intern_logenhelfer_de.Store.{Store, BackupCode}
use intern_logenhelfer_de.Mfa.BackupCodes.{
  is_open, mark_used, code_rows, generate_backup_codes, consume_backup_code,
}

-- Ids are a primary key.
abbrev pub IsKeyed : List BackupCode → Type 0
IsKeyed rows = HasKeys (λ c. c.id) rows

abbrev pub accepts : External → ℕ → String → BackupCode → Bool
accepts x user_id code c = is_open user_id c && x.compare code c.code_hash

open_count-used :
    (x : External) (user_id now : ℕ) (code : String) (rows : List BackupCode) (c : BackupCode)
    → IsKeyed rows
    → find (accepts x user_id code) rows ≡ some c
    → count_where (is_open user_id) (update_where (λ d. d.id == c.id) (mark_used now) rows) + 1
      ≡ count_where (is_open user_id) rows
open_count-used x user_id now code [] c k e = cc
open_count-used x user_id now code (d ∷ rows) c (apart, k) e =
    elim (Bool-cases (accepts x user_id code d)) [
      | inl fits ↦
          let same : d ≡ c = ground arith in
          subst
            (λ c.
              count_where (is_open user_id)
                  (update_where (λ d. d.id == c.id) (mark_used now) (d ∷ rows))
                + 1
              ≡ count_where (is_open user_id) (d ∷ rows))
            same
            (ground (
              arith,
              ap (count_where (is_open user_id))
                  (update_absent (λ c. c.id) (mark_used now) d.id rows apart),
            ))
      | inr other ↦
          let found : find (accepts x user_id code) rows ≡ some c = ground arith in
          ground (
            arith,
            open_count-used x user_id now code rows c k found,
            All-find (λ q. q.id ≢ d.id) (accepts x user_id code) rows c apart found,
          )
    ]

accepted-consume :
    (x : External) (user_id now : ℕ) (code : String) (s : Store)
    → (consume_backup_code x user_id code now s).0 ≡ any (accepts x user_id code) s.backup_codes
unfolding consume_backup_code
accepted-consume x user_id now code s =
    let step = find-select (λ c. x.compare code c.code_hash) (is_open user_id) s.backup_codes in
    elim (Option-cases (find (accepts x user_id code) s.backup_codes)) [
      | inl missing ↦
          rw (step ∙ missing, consume_backup_code)
            (rw (← find-any (accepts x user_id code) s.backup_codes) (rw missing))
      | inr (c, found) ↦
          rw (step ∙ found, consume_backup_code)
            (rw (← find-any (accepts x user_id code) s.backup_codes) (rw found))
    ]

-- A code is accepted exactly when one of the user's unused codes has its hash. An accepted code
-- uses up exactly one of them; a refused one changes nothing.
pub consume_backup_code_lem :
    (x : External) (user_id now : ℕ) (code : String) (s : Store)
    → IsKeyed s.backup_codes
    → let (accepted, s') = consume_backup_code x user_id code now s in
      (accepted ≡ any (accepts x user_id code) s.backup_codes)
      × (accepted ≡ true
          → count_where (is_open user_id) s'.backup_codes + 1
            ≡ count_where (is_open user_id) s.backup_codes)
      × (accepted ≡ false → s' ≡ s)
unfolding consume_backup_code
consume_backup_code_lem x user_id now code s k =
    let step = find-select (λ c. x.compare code c.code_hash) (is_open user_id) s.backup_codes in
    (
      accepted-consume x user_id now code s,
      elim (Option-cases (find (accepts x user_id code) s.backup_codes)) [
        | inl missing ↦ rw (step ∙ missing, consume_backup_code) (λ h. cc)
        | inr (c, found) ↦
            rw (step ∙ found, consume_backup_code)
              (λ h. open_count-used x user_id now code s.backup_codes c k found)
      ],
      elim (Option-cases (find (accepts x user_id code) s.backup_codes)) [
        | inl missing ↦ rw (step ∙ missing, consume_backup_code) (λ h. refl)
        | inr (c, found) ↦ rw (step ∙ found, consume_backup_code) (λ h. cc)
      ],
    )

code_rows-accepts :
    (x : External) (user_id now id : ℕ) (before after : List (String × String)) (salt code : String)
    → any (accepts x user_id code) (code_rows x user_id now id (before ++ (salt, code) ∷ after))
      ≡ true
unfolding code_rows
code_rows-accepts x user_id now id [] after salt code = ground (arith, x.compare-hash salt code)
code_rows-accepts x user_id now id (c ∷ before) after salt code =
    ground (arith, code_rows-accepts x user_id now (suc id) before after salt code)

code_rows-open :
    (x : External) (user_id now id : ℕ) (codes : List (String × String))
    → count_where (is_open user_id) (code_rows x user_id now id codes) ≡ length codes
unfolding code_rows
code_rows-open x user_id now id [] = refl
code_rows-open x user_id now id (c ∷ codes) =
    ground (arith, code_rows-open x user_id now (suc id) codes)

others_open :
    (user_id : ℕ) (rows : List BackupCode)
    → count_where (is_open user_id) (select (λ c. not (c.user_id == user_id)) rows) ≡ 0
others_open user_id [] = refl
others_open user_id (c ∷ rows) = ground (arith, others_open user_id rows)

-- After a regeneration each of the new codes is accepted, and the new codes are all that the user
-- has: older ones are gone, used or not.
pub generate_backup_codes_lem :
    (x : External) (user_id now t : ℕ) (before after : List (String × String)) (salt code : String)
    (s : Store)
    → let codes = before ++ (salt, code) ∷ after in
      let s' = (generate_backup_codes x user_id now codes s).1 in
      ((consume_backup_code x user_id code t s').0 ≡ true)
      × (count_where (is_open user_id) s'.backup_codes ≡ length codes)
unfolding generate_backup_codes
generate_backup_codes_lem x user_id now t before after salt code s =
    let codes = before ++ (salt, code) ∷ after in
    let others = select (λ c. not (c.user_id == user_id)) s.backup_codes in
    let rows = code_rows x user_id now s.next_id codes in
    (
      accepted-consume x user_id t code (generate_backup_codes x user_id now codes s).1
          ∙ any-append (accepts x user_id code) others rows
          ∙ rw (code_rows-accepts x user_id now s.next_id before after salt code) (or-true _),
      omega (
        arith,
        count_where-append (is_open user_id) others rows,
        others_open user_id s.backup_codes,
        code_rows-open x user_id now s.next_id codes,
      ),
    )
