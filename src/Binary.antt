-- ===== src/Binary.antt =====
-- Upgrades of the program's own file: how they are made, signed and published by pkg/upgradebin and
-- pkg/upgradebin/makepatch, and how pkg/client/upgradebin.go takes them.
pub mod Keys
pub mod Options
pub mod Patch
pub mod Import
pub mod Check
mod Tests
