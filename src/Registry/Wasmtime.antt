-- ===== src/Registry/Wasmtime.antt =====
-- What crates/core/src/cache.rs and crates/core/src/registry.rs use of wasmtime, under one engine
-- and one linker, and of SHA-256.
use warpline.Base.{◌≡◌, Option, some, Bytes, bytes_eq, pair_eq}

pub record Wasmtime : Type 1 where
  pub Component : Type 0
  -- `HandlerPre`: a component that fits the handler world.
  pub Pre : Type 0
  -- `Component::new`, `Component::deserialize` and `Component::serialize`.
  pub compile : Bytes → Option Component
  pub deserialize : Bytes → Option Component
  pub serialize : Component → Option Bytes
  -- `instantiate_pre`, with its check of imports and of the `handle` export.
  pub instantiate_pre : Component → Option Pre
  -- `compat_hash`, and `digest`.
  pub compat_hash : Bytes
  pub digest : Bytes → Bytes

-- What a component's own serialised form loads as.
pub record RoundTrips (w : Wasmtime) : Type 0 where
  pub reload : (c : w.Component) (b : Bytes) → w.serialize c ≡ some b → w.deserialize b ≡ some c
