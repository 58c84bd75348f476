-- ===== src/Tests/Pages.antt =====
-- The theorems on the listings at concrete rows.
