-- ===== src/Base/Run.antt =====
-- How a call with loops ends: with a value, with a run-time panic, or not within the given rounds.

pub data Run {ℓ} (A : Type ℓ) : Type ℓ where
  returns : A → Run A
  panics starves : Run A
