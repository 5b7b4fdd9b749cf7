-- ===== src/Base/Faults.antt =====
-- Code that may run into undefined behaviour.

-- `fault` is undefined behaviour: an access outside a block, through NULL or into freed memory, or
-- a memcpy between regions that overlap.
pub data Run {ℓ} (A : Type ℓ) : Type ℓ where
  ok : A → Run A
  fault : Run A

-- Going on with the value of a run.
abbrev pub and_then {ℓ κ} : {A : Type ℓ} {B : Type κ} → Run A → (A → Run B) → Run B
and_then (ok a) f = f a
and_then fault f = fault
