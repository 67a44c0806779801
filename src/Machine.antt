-- ===== src/Machine.antt =====
-- src/main.cpp: the frontend and the memory system together.
pub mod Loop
pub mod Flow
