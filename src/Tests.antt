-- ===== src/Tests.antt =====
-- Runs of the models on concrete inputs.
mod Bind
mod Codec
mod Store
mod Transactions
mod Flow
mod Plugin
mod Settings
mod Meta
mod Binding
mod Convert
mod Scanning
mod Structs
mod Waiting
mod Logging
mod Redis
