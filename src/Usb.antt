-- ===== src/Usb.antt =====
-- app/src/usb: the state and the task of the USB host, the block device on top of it, and the calls
-- between the USB host library and the HAL.
pub mod Host
pub mod MscDisk
pub mod Conf
