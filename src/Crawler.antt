-- ===== src/Crawler.antt =====
-- crates/crawler: the participant registry, the response parser and the crawl cycle.
pub mod Config
pub mod Parse
pub mod Crawl
mod Tests
