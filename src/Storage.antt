-- ===== src/Storage.antt =====
-- app/src/storage: the storage service, its protocol and its clients, over the FatFS library.
pub mod Protocol
pub mod Fatfs
pub mod Memory
pub mod Service
pub mod Client
