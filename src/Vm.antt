-- ===== src/Vm.antt =====
-- mdv_platform/mdv_vm.h and mdv_vm.c: the stack machine that evaluates predicates over rows.
pub mod Machine
pub mod Datum
pub mod Ops
pub mod Run
pub mod RoundTrip
pub mod Bounds
pub mod Compare
pub mod Program
pub mod Top
mod Tests
