-- ===== src/Base/Maps.antt =====
-- The `Map` of ECMAScript as its list of entries.
use Prim.Native.Nat.{ℕ}
use mathlib.Core.Path.{◌≡◌, refl}
use mathlib.Core.Option.{Option, none, some}
use mathlib.Core.List.{List, [], ◌∷◌}
use Prim.Native.Nat.{ℕ}
use native.Mathlib.Omega.{arith}
use intern_logenhelfer_de.Base.Tests.{Compared, nat_eq, ◌==◌, if◌then◌else◌}

abbrev pub get {ℓ ℓ'} : {K : Type ℓ} {V : Type ℓ'} ⦃c : Compared K⦄ → K → List (K × V) → Option V
get k [] = none
get k ((j, v) ∷ m) = if j == k then some v else get k m

abbrev pub set {ℓ ℓ'} :
    {K : Type ℓ} {V : Type ℓ'} ⦃c : Compared K⦄ → K → V → List (K × V) → List (K × V)
set k v [] = (k, v) ∷ []
set k v ((j, w) ∷ m) = if j == k then (k, v) ∷ m else (j, w) ∷ set k v m

abbrev pub delete {ℓ ℓ'} :
    {K : Type ℓ} {V : Type ℓ'} ⦃c : Compared K⦄ → K → List (K × V) → List (K × V)
delete k [] = []
delete k ((j, v) ∷ m) = if j == k then delete k m else (j, v) ∷ delete k m

pub get-delete {ℓ} : {V : Type ℓ} (k : ℕ) (m : List (ℕ × V)) → get k (delete k m) ≡ none
get-delete k [] = refl
get-delete k ((j, v) ∷ m) = ground (arith, get-delete k m)
