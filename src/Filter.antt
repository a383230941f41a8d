-- ===== src/Filter.antt =====
-- The credential provider filters: src/filter_lab.h, src/desktop_filter_policy.h,
-- src/desktop_filter.cpp and src/filter_vm.cpp.
pub mod Types
pub mod Lab
pub mod Desktop
pub mod Vm
pub mod Pointwise
pub mod Policy
