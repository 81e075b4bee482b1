-- ===== src/Vmm.antt =====
-- vmm/vmm.go: the virtual machine manager. Each child is a group of its methods.
pub mod Host
pub mod Views
pub mod Setup
pub mod Find
pub mod Exec
pub mod Create
pub mod Remove
pub mod Start
pub mod List
pub mod Sheriff
pub mod Transfer
pub mod Frames
pub mod Refused
pub mod Tests
