-- ===== src/Protocol.antt =====
-- packages/esp-claw-protocol: the wire format shared with the devices.
pub mod Topics
pub mod Capabilities
pub mod Envelopes
