-- ===== src/Glyph.antt =====
-- The glyph atlas of the panel renderer (src/ui/panel).
pub mod Atlas
pub mod Pack
