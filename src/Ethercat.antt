-- ===== src/Ethercat.antt =====
-- The EtherCAT side of the SDK: the MT_Device profiles, the process data of a drive, the frames that
-- the threads exchange, the domain memory that the master sends, and the backend of one master.
pub mod MtDevice
pub mod Frames
pub mod Pdo
pub mod Watchdog
pub mod Bindings
pub mod Snapshot
pub mod Backend
mod Tests
