-- ===== src/Resume/Signed.antt =====
-- lineagetx/resume.py: a snapshot that is written is read back.
use data_lineage_fix_agent.Models.Runtime.{Runtime}
