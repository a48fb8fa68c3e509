-- ===== src/Clipboard/Inbound.antt =====
-- src/clipboard/inbound: the files that the client put on its clipboard, as a tree to browse.
pub mod Tree
pub mod Transfer
