-- ===== src/Prog.antt =====
-- src/prog: the functions that a program declares, and the choice among those of one name.
pub mod Funcs
pub mod Overload
