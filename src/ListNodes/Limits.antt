-- ===== src/ListNodes/Limits.antt =====
-- The size of a page, and what becomes of a page size over the maximum.
