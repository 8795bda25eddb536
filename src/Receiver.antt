-- ===== src/Receiver.antt =====
-- filereceiver.go: a storage server takes an upload in chunks. A request works on one path, whose
-- data file and info file are a `Slot`; what the operating system may refuse is a record of faults.
pub mod Disk
pub mod Rule
pub mod Copy
pub mod Save
pub mod Invariant
pub mod Http
pub mod Serving
