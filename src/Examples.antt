-- ===== src/Examples.antt =====
-- Tests of the definitions, and the theorems applied at concrete inputs.
mod ListLru
mod Types
mod Kv
mod Sandbox
mod Registry
mod Cache
mod Runtime
mod Pg
mod Control
mod Host
mod Meter
mod Storefront
