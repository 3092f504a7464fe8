-- ===== src/Examples/Storefront.antt =====
-- The theorems on the storefront applied at concrete inputs.
use warpline.Base.{
  ◌≤◌, ◌≡◌, ◌↔◌, true, List, [], ◌∷◌, Option, some, arith, length, All, ok, Bytes, bytes_eq,
  pair_eq,
}
use warpline.Base.Text.{codes}
use warpline.Examples.Registry.{acme, hello}
use warpline.Kv.MemKv.{with_capacity_bytes}
use warpline.Storefront.Kv.{new_pg_kv}
use warpline.Storefront.Kv.Simulates.{
  KvCall, get_call, put_call, pg_answers, mem_answers, pg_answers-refines,
}
use warpline.Storefront.Checkout.{Order, subtotal, Decision, resolve_verdict}
use warpline.Storefront.Checkout.Subtotal.{HasChars, IsItem, lines, subtotal_iff}
use warpline.Storefront.Checkout.Policy.{Policy, resolve_verdict-Policy}

-- The second put of the key frees the first; the other tenant has its own quota; the last put is
-- too large.
abbrev calls : List KvCall
calls =
    put_call acme (codes "k") (codes "one")
    ∷ put_call acme (codes "k") (codes "two")
    ∷ put_call hello (codes "k") (codes "three")
    ∷ get_call acme (codes "k")
    ∷ put_call acme (codes "other") (codes "four")
    ∷ []

pg_answers-refines_example :
    pg_answers (new_pg_kv 80) calls ≡ mem_answers (with_capacity_bytes 80) calls
pg_answers-refines_example =
    pg_answers-refines 80 calls (omega arith)
      (omega arith, (omega arith, (omega arith, (omega arith, tt))))

abbrev order : Order
order = record {
  customer = codes "alice";
  items = record { sku = codes "sku"; qty = 3; unit_cents = 250 } ∷ [];
}

subtotal_iff_example : (subtotal order ≡ ok 750) ↔ (
    HasChars 100 order.customer
    × (1 ≤ length order.items)
    × (length order.items ≤ 100)
    × All IsItem order.items
    × (750 ≡ lines order.items)
    × (750 ≤ 1_000_000_000_000))
subtotal_iff_example = subtotal_iff order 750

abbrev discount : Bytes → Option Decision
discount b = some (record { approved = true; discount_cents = 100; message = b })

resolve_verdict-Policy_example :
    Policy discount (ok (codes "thanks")) 750 (resolve_verdict discount (ok (codes "thanks")) 750)
resolve_verdict-Policy_example = resolve_verdict-Policy discount (ok (codes "thanks")) 750
