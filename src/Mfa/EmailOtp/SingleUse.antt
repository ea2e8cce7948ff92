-- ===== src/Mfa/EmailOtp/SingleUse.antt =====
-- Which emailed codes are accepted.
use intern_logenhelfer_de.Base.{
  ℕ, ◌+◌, ◌<◌, ◌≡◌, refl, ◌∙◌, String, Bool, true, false, not, ◌&&◌, ◌||◌, none, List, [], ◌∷◌,
  ◌==◌, nat_eq, if◌then◌else◌, find, select, any, is_some, update_where, arith, find-any,
  Option-cases, inl, inr, any-append, lt→ltb, nat_beq_iff, sym, ◌⊎◌,
}
use mathlib.Core.Bool.{or-true}
use intern_logenhelfer_de.External.{External}
use intern_logenhelfer_de.Store.{Store, EmailOtpCode, Purpose, setup, login}
use intern_logenhelfer_de.Mfa.EmailOtp.{
  is_candidate, same_purpose, insert_desc, sort_desc, mark_consumed, send_email_otp,
  verify_email_otp, invalidate_login_codes, otp_ttl_ms,
}

any-insert_desc :
    (p : EmailOtpCode → Bool) (c : EmailOtpCode) (rows : List EmailOtpCode)
    → any p (insert_desc c rows) ≡ (p c || any p rows)
any-insert_desc p c [] = refl
any-insert_desc p c (d ∷ rows) = ground (arith, any-insert_desc p c rows)

any-sort_desc :
    (p : EmailOtpCode → Bool) (rows : List EmailOtpCode) → any p (sort_desc rows) ≡ any p rows
any-sort_desc p [] = refl
any-sort_desc p (c ∷ rows) = any-insert_desc p c (sort_desc rows) ∙ rw (any-sort_desc p rows)

any-select {ℓ} :
    {A : Type ℓ} (p q : A → Bool) (xs : List A) → any p (select q xs) ≡ any (λ a. q a && p a) xs
any-select p q [] = refl
any-select p q (x ∷ xs) = ground (arith, any-select p q xs)

abbrev pub accepts : External → ℕ → Purpose → String → ℕ → EmailOtpCode → Bool
accepts x user_id purpose code now c =
    is_candidate user_id purpose now c && x.compare code c.code_hash

-- A code is accepted exactly when one of the user's codes for this purpose, unused and not expired,
-- has its hash, whichever of them is tried first. A refused code changes nothing.
pub verify_email_otp_lem :
    (x : External) (user_id now : ℕ) (purpose : Purpose) (code : String) (s : Store)
    → let (accepted, s') = verify_email_otp x user_id purpose code now s in
      (accepted ≡ any (accepts x user_id purpose code now) s.email_otp_codes)
      × (accepted ≡ false → s' ≡ s)
unfolding verify_email_otp
verify_email_otp_lem x user_id now purpose code s =
    let p : EmailOtpCode → Bool = λ c. x.compare code c.code_hash in
    let candidates = sort_desc (select (is_candidate user_id purpose now) s.email_otp_codes) in
    let same =
      any-sort_desc p (select (is_candidate user_id purpose now) s.email_otp_codes)
      ∙ any-select p (is_candidate user_id purpose now) s.email_otp_codes in
    let found_any = find-any p candidates in
    elim (Option-cases (find p candidates)) [
      | inl missing ↦
          rw (missing, verify_email_otp)
            (rw (← same) (rw (← found_any) (rw missing refl)), λ h. refl)
      | inr (c, found) ↦
          rw (found, verify_email_otp) (rw (← same) (rw (← found_any) (rw found refl)), λ h. cc)
    ]

same_purpose_refl : (purpose : Purpose) → same_purpose purpose purpose ≡ true
same_purpose_refl setup = refl
same_purpose_refl login = refl

accepts_new :
    (x : External) (user_id now t id : ℕ) (code salt : String) (purpose : Purpose)
    → t < now + 600_000
    → accepts x user_id purpose code t (record {
      id = id;
      user_id = user_id;
      purpose = purpose;
      code_hash = x.hash salt code;
      expires_at = now + otp_ttl_ms;
      consumed_at = none;
      created_at = now;
    })
      ≡ true
accepts_new x user_id now t id code salt purpose early = rw (
  same_purpose_refl purpose,
  x.compare-hash salt code,
  (nat_beq_iff user_id user_id).1 refl,
  lt→ltb t (now + otp_ttl_ms) early,
)

-- A code that has been sent is accepted until ten minutes are over.
pub send_email_otp-verify :
    (x : External) (user_id now t : ℕ) (email code salt : String) (purpose : Purpose) (s : Store)
    → t < now + 600_000
    → (verify_email_otp x user_id purpose code t
        (send_email_otp x user_id email purpose code salt now s)).0
      ≡ true
unfolding send_email_otp
send_email_otp-verify x user_id now t email code salt purpose s early =
    let s' = send_email_otp x user_id email purpose code salt now s in
    (verify_email_otp_lem x user_id t purpose code s').0
    ∙ any-append (accepts x user_id purpose code t) s.email_otp_codes _
    ∙ rw (
      accepts_new x user_id now t s.next_id code salt purpose early,
      or-true (any (accepts x user_id purpose code t) s.email_otp_codes),
    )

none_left :
    (x : External) (user_id now t : ℕ) (code : String) (rows : List EmailOtpCode)
    → any (accepts x user_id login code t) (
        update_where
          (λ c.
            c.user_id == user_id && (same_purpose c.purpose login && not (is_some c.consumed_at)))
          (mark_consumed now)
          rows)
      ≡ false
none_left x user_id now t code [] = refl
none_left x user_id now t code (c ∷ rows) = ground (arith, none_left x user_id now t code rows)

Purpose-cases : (purpose : Purpose) → (purpose ≡ setup) ⊎ (purpose ≡ login)
Purpose-cases setup = inl refl
Purpose-cases login = inr refl

row_kept :
    (x : External) (user_id now t : ℕ) (code : String) (c : EmailOtpCode) (a b : Bool)
    → accepts x user_id setup code t
        (if a && (same_purpose c.purpose login && b) then mark_consumed now c else c)
      ≡ accepts x user_id setup code t c
row_kept x user_id now t code c false b = refl
row_kept x user_id now t code c true false = elim (Purpose-cases c.purpose) [
  | inl is_setup ↦ rw is_setup refl
  | inr is_login ↦ rw is_login refl
]
row_kept x user_id now t code c true true = elim (Purpose-cases c.purpose) [
  | inl is_setup ↦ rw is_setup refl
  | inr is_login ↦ rw is_login refl
]

setup_kept :
    (x : External) (user_id now t : ℕ) (code : String) (rows : List EmailOtpCode)
    → any (accepts x user_id setup code t) (
        update_where
          (λ c.
            c.user_id == user_id && (same_purpose c.purpose login && not (is_some c.consumed_at)))
          (mark_consumed now)
          rows)
      ≡ any (accepts x user_id setup code t) rows
setup_kept x user_id now t code [] = refl
setup_kept x user_id now t code (c ∷ rows) =
    rw
      (
        row_kept x user_id now t code c (c.user_id == user_id) (not (is_some c.consumed_at)),
        setup_kept x user_id now t code rows,
      )
      refl

-- Once the outstanding login codes are invalidated no login code of the user is accepted, at any
-- time, and the setup codes are accepted as before.
pub invalidate_login_codes_lem :
    (x : External) (user_id now t : ℕ) (code : String) (s : Store)
    → let s' = invalidate_login_codes user_id now s in
      ((verify_email_otp x user_id login code t s').0 ≡ false)
      × ((verify_email_otp x user_id setup code t s').0
          ≡ (verify_email_otp x user_id setup code t s).0)
unfolding invalidate_login_codes
invalidate_login_codes_lem x user_id now t code s = (
  (verify_email_otp_lem x user_id t login code (invalidate_login_codes user_id now s)).0
      ∙ none_left x user_id now t code s.email_otp_codes,
  (verify_email_otp_lem x user_id t setup code (invalidate_login_codes user_id now s)).0
      ∙ setup_kept x user_id now t code s.email_otp_codes
      ∙ (sym ((verify_email_otp_lem x user_id t setup code s).0)),
)
