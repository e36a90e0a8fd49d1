-- ===== src/Collections.antt =====
-- `std::collections`: the ordered map and the ordered set.
pub mod Map
pub mod Set
pub mod Sort
pub mod Dedup
pub mod Keys
