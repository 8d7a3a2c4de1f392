-- ===== src/Assessment/Path/Examples.antt =====
-- A path of one revision.
