-- ===== src/Mfa/EmailOtp.antt =====
-- One-time codes by email (api/src/lib/mfaEmailOtp.ts).
pub mod SingleUse
use intern_logenhelfer_de.Base.{
  ℕ, suc, ◌+◌, ◌*◌, String, Bool, true, false, not, ◌&&◌, Option, none, some, List, [], ◌∷◌, ◌++◌,
  ◌==◌, nat_eq, if◌then◌else◌, ltb, leb, find, select, is_some, update_where,
}
use intern_logenhelfer_de.External.{External}
use intern_logenhelfer_de.Store.{Store, EmailOtpCode, Purpose, setup, login, Mail, otp}

abbrev pub otp_ttl_ms : ℕ
otp_ttl_ms = 10 * 60_000

abbrev pub same_purpose : Purpose → Purpose → Bool
same_purpose setup setup = true
same_purpose login login = true
same_purpose _ _ = false

-- The `where` clause of the candidates.
abbrev pub is_candidate : ℕ → Purpose → ℕ → EmailOtpCode → Bool
is_candidate user_id purpose now c =
    c.user_id == user_id
    && (same_purpose c.purpose purpose && (not (is_some c.consumed_at) && ltb now c.expires_at))

-- `orderBy: { created_at: 'desc' }`
abbrev pub insert_desc : EmailOtpCode → List EmailOtpCode → List EmailOtpCode
insert_desc c [] = c ∷ []
insert_desc c (d ∷ rows) =
    if leb d.created_at c.created_at then c ∷ d ∷ rows else d ∷ insert_desc c rows

abbrev pub sort_desc : List EmailOtpCode → List EmailOtpCode
sort_desc [] = []
sort_desc (c ∷ rows) = insert_desc c (sort_desc rows)

abbrev pub mark_consumed : ℕ → EmailOtpCode → EmailOtpCode
mark_consumed now c = record c { consumed_at = some now }

module _ (x : External) where
  -- The code and the salt of its hash are drawn by the caller's generators.
  unfoldable pub send_email_otp : ℕ → String → Purpose → String → String → ℕ → Store → Store
  send_email_otp user_id email purpose code salt now s =
      let row : EmailOtpCode = record {
        id = s.next_id;
        user_id = user_id;
        purpose = purpose;
        code_hash = x.hash salt code;
        expires_at = now + otp_ttl_ms;
        consumed_at = none;
        created_at = now;
      } in
      record s {
        email_otp_codes = s.email_otp_codes ++ row ∷ [];
        next_id = suc s.next_id;
        mails = s.mails ++ otp email code ∷ [];
      }

  unfoldable pub verify_email_otp : ℕ → Purpose → String → ℕ → Store → Bool × Store
  verify_email_otp user_id purpose code now s =
      let candidates = sort_desc (select (is_candidate user_id purpose now) s.email_otp_codes) in
      elim (find (λ c. x.compare code c.code_hash) candidates) [
        | none ↦ (false, s)
        | some candidate ↦ (
          true,
          record s {
            email_otp_codes =
                update_where (λ c. c.id == candidate.id) (mark_consumed now) s.email_otp_codes;
          },
        )
      ]

-- The `updateMany` of `POST /mfa/challenge/email/send`: outstanding login codes are used up.
unfoldable pub invalidate_login_codes : ℕ → ℕ → Store → Store
invalidate_login_codes user_id now s = record s {
  email_otp_codes =
      update_where
        (λ c. c.user_id == user_id && (same_purpose c.purpose login && not (is_some c.consumed_at)))
        (mark_consumed now) s.email_otp_codes;
}
