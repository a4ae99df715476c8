-- ===== src/Storage.antt =====
-- What the hub keeps in flash: src/nvs_store.rs (the Wi-Fi credentials) and src/persist.rs (its
-- identity and its token).
pub mod Flash
pub mod WifiStore
pub mod Identity
pub mod Reload
pub mod Kept
pub mod Cells
pub mod Nvs
pub mod Tests
