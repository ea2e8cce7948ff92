-- ===== src/Mfa/BackupCodes.antt =====
-- Backup codes (api/src/lib/mfaBackupCodes.ts).
pub mod SingleUse
use intern_logenhelfer_de.Base.{
  ℕ, zero, suc, ◌+◌, ◌%◌, String, Bool, true, false, not, ◌&&◌, Option, none, some, List, [], ◌∷◌,
  ◌++◌, map, ◌==◌, nat_eq, if◌then◌else◌, find, select, is_some, update_where, take, drop,
}
use Prim.Native.String
use intern_logenhelfer_de.External.{External}
use intern_logenhelfer_de.Store.{Store, BackupCode}

abbrev pub alphabet : String
alphabet = "ABCDEFGHJKLMNPQRSTUVWXYZ23456789"

-- `alphabet[i]`, as a text of one character, or none past the end.
abbrev pub char_at : String → ℕ → String
char_at String.[] i = ""
char_at (String.◌∷◌ c s) zero = String.◌∷◌ c ""
char_at (String.◌∷◌ c s) (suc i) = char_at s i

-- `join('')`
abbrev pub join : List String → String
join [] = ""
join (x ∷ xs) = String.◌++◌ x (join xs)

-- The ten random bytes are the argument.
unfoldable pub generate_one_code : List ℕ → String
generate_one_code bytes =
    let chars = map (λ b. char_at alphabet (b % 32)) bytes in
    String.◌++◌ (join (take 5 chars)) (String.◌++◌ "-" (join (drop 5 chars)))

-- `findMany({ where: { user_id, used_at: null } })`
abbrev pub is_open : ℕ → BackupCode → Bool
is_open user_id c = c.user_id == user_id && not (is_some c.used_at)

abbrev pub mark_used : ℕ → BackupCode → BackupCode
mark_used now c = record c { used_at = some now }

module _ (x : External) where
  -- The rows of `createMany`: each code hashed with the salt that bcrypt drew for it.
  unfoldable pub code_rows : ℕ → ℕ → ℕ → List (String × String) → List BackupCode
  code_rows user_id now id [] = []
  code_rows user_id now id ((salt, code) ∷ codes) =
      record {
        id = id;
        user_id = user_id;
        code_hash = x.hash salt code;
        used_at = none;
        created_at = now;
      }
      ∷ code_rows user_id now (suc id) codes

  abbrev pub next_after : ℕ → List (String × String) → ℕ
  next_after id [] = id
  next_after id (_ ∷ codes) = next_after (suc id) codes

  -- The codes drawn, with their salts, replace all codes of the user in one transaction.
  unfoldable pub generate_backup_codes :
      ℕ → ℕ → List (String × String) → Store → List String × Store
  unfolding code_rows
  generate_backup_codes user_id now codes s = (
    map (λ c. c.1) codes,
    record s {
      backup_codes =
          select (λ c. not (c.user_id == user_id)) s.backup_codes
          ++ code_rows user_id now s.next_id codes;
      next_id = next_after s.next_id codes;
    },
  )

  -- The loop over the candidates ends at the first that the code matches.
  unfoldable pub consume_backup_code : ℕ → String → ℕ → Store → Bool × Store
  consume_backup_code user_id code now s =
      elim (find (λ c. x.compare code c.code_hash) (select (is_open user_id) s.backup_codes)) [
        | none ↦ (false, s)
        | some candidate ↦ (
          true,
          record s {
            backup_codes = update_where (λ c. c.id == candidate.id) (mark_used now) s.backup_codes;
          },
        )
      ]
