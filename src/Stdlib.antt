-- ===== src/Stdlib.antt =====
-- What the source uses of the C++ standard library, where the behaviour matters: lines and fields by
-- `std::getline`, decimal numbers by `std::stoull` and `operator<<`, and paths.
pub mod Lines
pub mod Decimal
