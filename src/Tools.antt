-- ===== src/Tools.antt =====
-- internal/tools: the declarations of the tools.
pub mod Catalog
