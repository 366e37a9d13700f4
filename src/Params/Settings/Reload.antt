-- ===== src/Params/Settings/Reload.antt =====
-- The configuration that one start writes to the file is the one that the next start reads.
