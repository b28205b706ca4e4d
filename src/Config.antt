-- ===== src/Config.antt =====
-- src/config: the configuration record, its validators and the keyed access of the service.
pub mod Types
pub mod Platform
pub mod Values
pub mod Field
pub mod Checks
pub mod Defaults
pub mod Validator
pub mod Setter
pub mod Reader
pub mod Service
pub mod Store
pub mod Masking
pub mod Tests
