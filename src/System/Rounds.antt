-- ===== src/System/Rounds.antt =====
-- Rounds of the threads keep the balance, and so does every history.
