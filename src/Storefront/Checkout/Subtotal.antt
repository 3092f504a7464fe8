-- ===== src/Storefront/Checkout/Subtotal.antt =====
-- The subtotal of an order of examples/storefront/app/src/checkout.rs.
use warpline.Base.{
  ℕ, ◌+◌, ◌*◌, ◌≤◌, ◌≡◌, ◌≢◌, ◌↔◌, true, List, [], ◌∷◌, arith, length, All, ok, Bytes, bytes_eq,
  pair_eq,
}
use warpline.Storefront.Checkout.{
  Item, Order, char_count, has_chars, checked, subtotal_from, subtotal,
}

-- One to `n` characters.
abbrev pub HasChars : ℕ → Bytes → Type 0
HasChars n s = (s ≢ []) × (char_count s ≤ n)

abbrev pub IsItem : Item → Type 0
IsItem item = HasChars 64 item.sku × (1 ≤ item.qty) × (item.unit_cents ≤ 1_000_000_000_000)

-- The exact sum of the lines.
abbrev pub lines : List Item → ℕ
lines [] = 0
lines (item ∷ items) = item.unit_cents * item.qty + lines items

has_chars_iff : (n : ℕ) (s : Bytes) → (has_chars n s ≡ true) ↔ HasChars n s
unfolding has_chars
has_chars_iff n [] = ground arith
has_chars_iff n (b ∷ s) = ground arith

-- What the loop returns, both ways.
subtotal_from_sound :
    (total n : ℕ) (items : List Item)
    → subtotal_from total items ≡ ok n
    → All IsItem items × (n ≡ total + lines items)
unfolding subtotal_from checked
subtotal_from_sound total n [] e = (tt, ground arith)
subtotal_from_sound total n (item ∷ items) e = ground (
  arith,
  has_chars_iff 64 item.sku,
  subtotal_from_sound (total + item.unit_cents * item.qty) n items,
)

subtotal_from_bound :
    (total n : ℕ) (items : List Item)
    → total ≤ 1_000_000_000_000
    → subtotal_from total items ≡ ok n
    → n ≤ 1_000_000_000_000
unfolding subtotal_from checked
subtotal_from_bound total n [] le e = ground arith
subtotal_from_bound total n (item ∷ items) le e =
    ground (arith, subtotal_from_bound (total + item.unit_cents * item.qty) n items)

subtotal_from_complete :
    (total : ℕ) (items : List Item)
    → All IsItem items
    → total + lines items ≤ 1_000_000_000_000
    → subtotal_from total items ≡ ok (total + lines items)
unfolding subtotal_from checked
subtotal_from_complete total [] a le = ground arith
subtotal_from_complete total (item ∷ items) a le = ground (
  arith,
  has_chars_iff 64 item.sku,
  subtotal_from_complete (total + item.unit_cents * item.qty) items,
)

-- An order is accepted exactly if the customer has 1 to 100 characters, there are 1 to 100 items,
-- each with a sku of 1 to 64 characters, at least one piece and a unit price of at most 10^12 cents,
-- and the exact sum is at most 10^12 cents; the subtotal is then that sum, with no wrap-around.
pub subtotal_iff :
    (order : Order) (n : ℕ)
    → (subtotal order ≡ ok n) ↔ (
        HasChars 100 order.customer
        × (1 ≤ length order.items)
        × (length order.items ≤ 100)
        × All IsItem order.items
        × (n ≡ lines order.items)
        × (n ≤ 1_000_000_000_000))
unfolding subtotal
subtotal_iff order n = ground (
  arith,
  has_chars_iff 100 order.customer,
  subtotal_from_sound 0 n order.items,
  subtotal_from_bound 0 n order.items,
  subtotal_from_complete 0 order.items,
)
