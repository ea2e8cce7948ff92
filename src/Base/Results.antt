-- ===== src/Base/Results.antt =====
-- `async` calls that read and write the store and may throw.

pub data Result {ℓ κ} (E : Type κ) (A : Type ℓ) : Type (ℓ ⊔ κ) where
  ok : A → Result E A
  err : E → Result E A
