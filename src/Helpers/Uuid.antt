-- ===== src/Helpers/Uuid.antt =====
-- A UUID that no row has yet (api/src/lib/uuid.ts). The UUIDs are the runtime's draws.
use intern_logenhelfer_de.Base.{String, Bool, Option, none, some, List, [], ◌∷◌, if◌then◌else◌}

-- Draws until one is free; `none` where all that are given are taken, so that the loop goes on.
unfoldable pub generate_unique_uuid : (String → Bool) → List String → Option String
generate_unique_uuid check_exists [] = none
generate_unique_uuid check_exists (uuid ∷ draws) =
    let again = generate_unique_uuid check_exists draws in
    if check_exists uuid then again else some uuid
