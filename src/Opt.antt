-- ===== src/Opt.antt =====
-- src/opt: the optimizer.
pub mod Intrinsics
