-- ===== src/Security/RekeyControl.antt =====
-- python/gatherlink/security/rekey_control.py: the messages of a live rekey and what each side does
-- with them. The bytes of a message are JSON.
pub mod Messages
pub mod Encoding
pub mod Exchange
