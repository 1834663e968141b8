-- ===== src/Can.antt =====
-- The CAN side of the SDK without its sockets: the MIT frames, and the backend of one CAN master.
pub mod Protocol
pub mod Backend
mod Tests
