-- ===== src/Scanner.antt =====
-- What the scanners share: listing in pages and the capped sort.
pub mod Paging
pub mod TopN
