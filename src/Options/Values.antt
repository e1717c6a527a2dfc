-- ===== src/Options/Values.antt =====
-- What an option reads as after it is set.
