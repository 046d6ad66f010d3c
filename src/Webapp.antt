-- ===== src/Webapp.antt =====
-- internal/webapp: the web pages. The relatives that the bottle page links to are modelled.
pub mod Ancestors
pub mod Tooltips
pub mod Search
pub mod Partial
