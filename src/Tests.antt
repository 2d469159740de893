-- ===== src/Tests.antt =====
-- Runs of the code on concrete inputs, and the theorems applied to them.
mod Certs
mod Documents
mod Printing
mod Headers
mod Renewal
mod Scripts
mod Server
mod Signing
mod Styles
