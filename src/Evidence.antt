-- ===== src/Evidence.antt =====
-- hp34401a_dmm/evidence.py: what is written of a keyword's run. The children model the redaction of
-- values and the run; files, hashes and times are left out.
pub mod Json
pub mod Records
pub mod Lines
pub mod Run
pub mod Validate
pub mod Folder
