-- ===== src/Prelude/Fetch.antt =====
-- The result of an awaited call that may throw.

pub data Fetch {ℓ} (A : Type ℓ) : Type ℓ where
  fetched : A → Fetch A
  failed : Fetch A
