-- ===== src/Scan.antt =====
-- html_scan.rs and xml_scan.rs: the cheap scan of markup for red flags, before it is parsed.
pub mod Matcher
pub mod Html
pub mod Xml
pub mod Tests
