-- ===== src/Http/Mapping.antt =====
-- What the error handler sends for each thing that can be thrown.
use intern_logenhelfer_de.Base.{◌≡◌, refl, none, [], arith}
use intern_logenhelfer_de.Http.{Thrown, api_error, validation, error, api_error_handler}

-- What is not meant for the caller ends in a bare 500: no detail leaves the process.
abbrev pub IsInternal : Thrown → Type 0
IsInternal (api_error _ _) = ⊥
IsInternal (validation status _) =
    ¬ (status ≡ 400) × ¬ (status ≡ 401) × ¬ (status ≡ 404) × ¬ (status ≡ 413)
IsInternal _ = Unit

pub api_error_handler-internal :
    (t : Thrown)
    → IsInternal t
    → api_error_handler t
      ≡ record { status = 500; body = error "internal_server_error" none; cookies = [] }
unfolding api_error_handler
api_error_handler-internal (api_error c d) h = absurd h
api_error_handler-internal (validation status m) h = ground arith
api_error_handler-internal _ h = refl
