-- ===== src/Translation.antt =====
-- The address translations (src/translation/impl).
pub mod Random
pub mod Drawn
pub mod Pages
pub mod Landing
pub mod Inside
