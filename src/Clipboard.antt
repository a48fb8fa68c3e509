-- ===== src/Clipboard.antt =====
-- src/clipboard: the texts, formats and file lists that cross between the two clipboards.
pub mod Text
pub mod Formats
pub mod Inbound
mod Tests
mod InboundTests
