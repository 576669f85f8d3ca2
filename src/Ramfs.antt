-- ===== src/Ramfs.antt =====
-- quantra-ramfs/src: the initial ramdisk.
pub mod Tpm2
pub mod Cmdline
pub mod Verity
pub mod Switch
mod Samples
