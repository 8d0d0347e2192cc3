-- ===== src/Signing.antt =====
-- modules/plugin_system/signing.py: the trust store of publishers' keys, and the signatures of
-- packages. The cryptographic functions, base64 and the environment are a parameter.
pub mod Store
pub mod Packages
pub mod Trust
pub mod Verified
pub mod Payload
pub mod Signed
