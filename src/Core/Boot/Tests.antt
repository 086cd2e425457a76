-- ===== src/Core/Boot/Tests.antt =====
-- The start of a target at a concrete one.
