-- ===== src/Storefront/Checkout.antt =====
-- examples/storefront/app/src/checkout.rs: the checks of an order, and what an answer of a merchant's
-- hook comes to.
pub mod Subtotal
pub mod Policy
use warpline.Base.{
  ℕ, zero, suc, ◌+◌, ◌-◌, ◌*◌, ◌/◌, ◌%◌, ◌^◌, ◌≤◌, ◌<◌, min, max, ◌≡◌, refl, sym, ap, ◌∙◌, ◌≢◌, ◌↔◌,
  ◌⊎◌, inl, inr, Bool, true, false, not, ◌&&◌, ◌||◌, List, [], ◌∷◌, ◌++◌, map, Option, none, some,
  arith, ltb, leb, ◌==◌, if◌then◌else◌, ltb→lt, lt→ltb, leb→le, le→leb, ==_iff, Bool-cases,
  Option-cases, Bool-eq_of_iff, length, take, drop, replicate, length-append, length-take,
  take-append-drop, all, any, All, keep, sum_by, length-keep-le, word_mod, word_max, i64_max,
  wrapping_add, wrapping_sub, wrapping_mul, saturating_sub, saturating_add, ℤ, pos, negsuc,
  in_range, i64_or_max, Result, ok, err, ◌>>=◌, ◌>>◌, map_err, ok_or, ensure, is_ok, Result-cases,
  Eq, Bytes, bytes_beq, bytes_beq_iff, bytes_eq, pair_beq, pair_beq_iff, pair_eq, lookup, insert,
  remove, lookup-insert, lookup-remove, lookup-insert_self, weigh, weight_at, weigh-insert,
  weight_at-le,
}
use warpline.Sandbox.Text.{starts_char}
use warpline.Runtime.Errors.{
  InvokeError, invalid_name, not_found, overloaded, tenant_busy, invalid_limits,
  cpu_budget_exceeded, memory_cap_exceeded, wall_clock_timeout, output_too_large, guest_trap, load,
}

abbrev pub max_hook_output_bytes : ℕ
max_hook_output_bytes = 64 * 1024

abbrev pub max_message_chars : ℕ
max_message_chars = 200

abbrev pub max_items : ℕ
max_items = 100

abbrev pub max_cents : ℕ
max_cents = 1_000_000_000_000

pub record Item : Type 0 where
  pub sku : Bytes
  pub qty : ℕ
  pub unit_cents : ℕ

pub record Order : Type 0 where
  pub customer : Bytes
  pub items : List Item

-- The texts of the refusals.
pub data OrderError : Type 0 where
  customer_size items_size sku_size zero_qty large_unit large_total : OrderError

-- `s.chars().count()`.
unfoldable pub char_count : Bytes → ℕ
char_count s = length (keep starts_char s)

-- `s.is_empty() || s.chars().count() > n`, turned around.
unfoldable pub has_chars : ℕ → Bytes → Bool
has_chars n [] = false
has_chars n (b ∷ s) = leb (char_count (b ∷ s)) n

-- `checked_mul` and `checked_add` on u64.
unfoldable pub checked : ℕ → Result OrderError ℕ
checked n = if leb n word_max then ok n else err large_total

-- The loop over the items.
unfoldable pub subtotal_from : ℕ → List Item → Result OrderError ℕ
subtotal_from total [] = ok total
subtotal_from total (item ∷ items) = do
  ensure (has_chars 64 item.sku) sku_size
  ensure (not (item.qty == 0)) zero_qty
  ensure (leb item.unit_cents max_cents) large_unit
  line ← checked (item.unit_cents * item.qty)
  next ← checked (total + line)
  ensure (leb next max_cents) large_total
  subtotal_from next items

-- `Order::subtotal`.
unfoldable pub subtotal : Order → Result OrderError ℕ
subtotal order = do
  ensure (has_chars 100 order.customer) customer_size
  ensure (leb 1 (length order.items) && leb (length order.items) max_items) items_size
  subtotal_from 0 order.items

pub record Decision : Type 0 where
  pub approved : Bool
  pub discount_cents : ℕ
  pub message : Bytes

pub data BadOutput : Type 0 where
  too_long bad_shape discount_exceeds long_message : BadOutput

pub data Verdict : Type 0 where
  hook : Decision → Verdict
  no_hook retry : Verdict
  fail_open : BadOutput ⊎ InvokeError → Verdict

-- `serde_json::from_slice` of a `Decision`.
module _ (from_slice : Bytes → Option Decision) where
  unfoldable pub parse_decision : Bytes → ℕ → Result BadOutput Decision
  parse_decision output subtotal_cents = do
    ensure (leb (length output) max_hook_output_bytes) too_long
    d ← ok_or bad_shape (from_slice output)
    ensure (leb d.discount_cents subtotal_cents) discount_exceeds
    ensure (leb (char_count d.message) max_message_chars) long_message
    ok d

  unfoldable pub resolve_output : Result BadOutput Decision → Verdict
  resolve_output (ok d) = hook d
  resolve_output (err why) = fail_open (inl why)

  unfoldable pub resolve_verdict : Result InvokeError Bytes → ℕ → Verdict
  resolve_verdict (ok output) subtotal_cents = resolve_output (parse_decision output subtotal_cents)
  resolve_verdict (err not_found) subtotal_cents = no_hook
  resolve_verdict (err overloaded) subtotal_cents = retry
  resolve_verdict (err tenant_busy) subtotal_cents = retry
  resolve_verdict (err e) subtotal_cents = fail_open (inr e)
