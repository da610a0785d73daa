-- ===== src/Text.antt =====
-- Text as lists of bytes: `split` of common/str.cpp, and the decimal conversions of the C++ library
-- (`std::to_string`, `atoll`, `std::stol`) and `getline`, which the code calls.
pub mod Split
pub mod Decimal
pub mod Lines
