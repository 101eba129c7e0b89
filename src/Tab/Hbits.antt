-- ===== src/Tab/Hbits.antt =====
-- The size of the hash part.
