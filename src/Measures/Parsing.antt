-- ===== src/Measures/Parsing.antt =====
-- The loop of `unit_from_string` of units.c ends on every text.
