-- ===== src/Examples/Lending.antt =====
-- The progress of a loan.
