-- ===== src/Routes/Params.antt =====
-- Reading a request: `requireParam` of api/src/routes/session.ts and of passwordReset.ts.
use intern_logenhelfer_de.Base.{
  String, Option, none, some, ◌==◌, string_eq, if◌then◌else◌, Result, ok, err,
}
use Prim.Native.String
use intern_logenhelfer_de.Base.{ℕ, zero, suc, ◌/◌, ◌%◌, ltb}
use intern_logenhelfer_de.Mfa.BackupCodes.{char_at}
use intern_logenhelfer_de.External.{External}
use intern_logenhelfer_de.Http.{Thrown, api_error, bad_request}

-- `ApiError.badRequest(…)`
abbrev pub missing_param : String → Thrown
missing_param key =
    api_error bad_request (some (String.◌++◌ "param is missing or the value is empty: " key))

-- The value is what `String(value)` gives for one that is neither `undefined` nor `null`.
unfoldable pub require_param : External → Option String → String → Result Thrown String
require_param x none key = err (missing_param key)
require_param x (some value) key = if x.trim value == "" then err (missing_param key) else ok value

-- A natural number in decimal, as a template writes it. One call of `decimal_digits` per digit, so
-- that the number itself, plus one, is fuel enough.
abbrev pub decimal_digits : ℕ → ℕ → String
decimal_digits zero n = ""
decimal_digits (suc fuel) n =
    let last = char_at "0123456789" (n % 10) in
    let rest = decimal_digits fuel (n / 10) in if ltb n 10 then last else String.◌++◌ rest last

abbrev pub decimal : ℕ → String
decimal n = decimal_digits (suc n) n
