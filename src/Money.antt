-- ===== src/Money.antt =====
-- internal/money/money.go: amounts as int64 cents, and millionths of a unit.
pub mod Amount
pub mod Decimal
pub mod Total
pub mod Rounding
pub mod Bounds
pub mod RoundTrip
mod Tests
