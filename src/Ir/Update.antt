-- ===== src/Ir/Update.antt =====
-- src/compiler_common.h: writes through a pointer, at the address and elsewhere.
use bbae.Common.{ℕ, ◌≡◌, ◌≢◌, arith}
use bbae.Ir.{update}

module _ {ℓ} {A : Type ℓ} (f : ℕ → A) (k : ℕ) (v : A) where
  pub update_self : update f k v k ≡ v
  update_self = ground arith

  pub update_ne : (j : ℕ) → j ≢ k → update f k v j ≡ f j
  update_ne j ne = ground arith
