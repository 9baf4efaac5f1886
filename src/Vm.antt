-- ===== src/Vm.antt =====
-- src/vm: the virtual machine.
pub mod Value
pub mod Exec
pub mod Frames
pub mod Gc
