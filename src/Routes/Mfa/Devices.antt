-- ===== src/Routes/Mfa/Devices.antt =====
-- The trusted devices of a user and the challenge for a proof by passkey (api/src/routes/mfa.ts).
use intern_logenhelfer_de.Base.{
  ℕ, String, not, Option, none, some, ◌==◌, nat_eq, if◌then◌else◌, find, any, select, set,
}
use intern_logenhelfer_de.Http.{
  Reply, empty, options, other, api_error, not_found, api_error_handler,
}
use intern_logenhelfer_de.Store.{Store, User}
use intern_logenhelfer_de.Routes.Grant.{plain}

unfoldable pub delete_device : ℕ → Store → Store
delete_device id s = record s { trusted_devices = select (λ d. not (d.id == id)) s.trusted_devices }

-- The path's id as a number; `none` stands for a text that is none, on which the lookup throws.
unfoldable pub delete_trusted_device : User → Option ℕ → Store → Reply × Store
unfolding delete_device api_error_handler
delete_trusted_device user none s = (api_error_handler other, s)
delete_trusted_device user (some id) s = elim (find (λ d. d.id == id) s.trusted_devices) [
  | none ↦ (api_error_handler (api_error not_found none), s)
  | some device ↦
      if not (device.user_id == user.id)
      then (api_error_handler (api_error not_found none), s)
      else (plain 204 empty, delete_device id s)
]

-- The challenge is drawn by the library.
unfoldable pub proof_passkey_options : User → String → Store → Reply × Store
unfolding api_error_handler
proof_passkey_options user challenge s =
    if not (any (λ c. c.user_id == user.id) s.passkey_credentials)
    then (api_error_handler (api_error not_found none), s)
    else (
      plain 200 (options challenge),
      record s { pending_proof_challenges = set user.id challenge s.pending_proof_challenges },
    )
