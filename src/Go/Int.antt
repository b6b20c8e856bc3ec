-- ===== src/Go/Int.antt =====
-- Signed integers, and the range of `int32`.
use kube_service_exporter.Base.{ℕ, ◌^◌, ◌<◌}

-- `negsuc n` is -(n + 1)
pub data ℤ : Type 0 where
  pos : ℕ → ℤ
  negsuc : ℕ → ℤ

-- a value that an `int32` can hold
abbrev pub InInt32 : ℤ → Type 0
InInt32 (pos n) = n < 2 ^ 31
InInt32 (negsuc n) = n < 2 ^ 31
