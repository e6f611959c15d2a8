-- ===== src/Core/Tests.antt =====
-- The rounding theorems at concrete inputs.
