-- ===== src/Auth/DeviceTrust.antt =====
-- Trusted devices (api/src/auth/deviceTrust.ts) and sign-in tracking (api/src/auth/signInTracking.ts).
use intern_logenhelfer_de.Base.{
  ℕ, suc, ◌+◌, ◌*◌, String, Bool, false, ◌&&◌, Option, none, some, [], ◌∷◌, ◌++◌, ltb, ◌==◌, nat_eq,
  string_eq, find, update_where, or_else, if◌then◌else◌,
}
use intern_logenhelfer_de.External.{External}
use intern_logenhelfer_de.Store.{Store, User, TrustedDevice}

-- `record !== null && record.user_id === userId && record.expires_at.getTime() > Date.now()`
abbrev pub is_trusted_row : ℕ → ℕ → Option TrustedDevice → Bool
is_trusted_row user_id now none = false
is_trusted_row user_id now (some d) = d.user_id == user_id && ltb now d.expires_at

module _ (x : External) where
  unfoldable pub is_device_trusted : ℕ → Option String → ℕ → Store → Bool
  is_device_trusted user_id none now s = false
  is_device_trusted user_id (some raw) now s =
      if raw == ""
      then false
      else is_trusted_row user_id now
          (find (λ d. d.device_token_hash == x.digest raw) s.trusted_devices)

  unfoldable pub issue_trusted_device_token :
      ℕ → Option String → Option String → ℕ → String → ℕ → Store → Store
  issue_trusted_device_token user_id user_agent ip trusted_device_days raw_token now s =
      let row : TrustedDevice = record {
        id = s.next_id;
        user_id = user_id;
        device_token_hash = x.digest raw_token;
        user_agent = user_agent;
        last_ip = ip;
        expires_at = now + trusted_device_days * 86_400_000;
        created_at = now;
      } in
      record s { trusted_devices = s.trusted_devices ++ row ∷ []; next_id = suc s.next_id }

-- `user.current_sign_in_ip ?? ip`
abbrev pub first_of {ℓ} : {A : Type ℓ} → Option A → Option A → Option A
first_of none b = b
first_of (some a) _ = some a

abbrev pub tracked : User → Option String → ℕ → User → User
tracked user ip now u = record u {
  last_sign_in_at = some (or_else user.current_sign_in_at now);
  current_sign_in_at = some now;
  last_sign_in_ip = first_of user.current_sign_in_ip ip;
  current_sign_in_ip = ip;
  sign_in_count = some (or_else user.sign_in_count 0 + 1);
}

-- The old values are those of the row that the handler has read.
unfoldable pub record_successful_sign_in : User → Option String → ℕ → Store → Store
record_successful_sign_in user ip now s = record s {
  users = update_where (λ u. u.id == user.id) (tracked user ip now) s.users;
}
