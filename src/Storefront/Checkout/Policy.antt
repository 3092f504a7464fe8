-- ===== src/Storefront/Checkout/Policy.antt =====
-- The policy of examples/storefront/app/src/checkout.rs on what a hook answers, or fails to.
use warpline.Base.{
  ℕ, ◌≤◌, ◌<◌, ◌≡◌, refl, ◌≢◌, ◌⊎◌, inl, inr, Option, none, some, arith, leb, Bool-cases,
  Option-cases, length, Result, ok, err, Bytes, bytes_eq, pair_eq,
}
use warpline.Runtime.Errors.{
  InvokeError, invalid_name, not_found, overloaded, tenant_busy, invalid_limits,
  cpu_budget_exceeded, memory_cap_exceeded, wall_clock_timeout, output_too_large, guest_trap, load,
}
use warpline.Storefront.Checkout.{
  Decision, Verdict, hook, no_hook, retry, fail_open, char_count, parse_decision, resolve_output,
  resolve_verdict,
}

module _ (from_slice : Bytes → Option Decision) where
  -- An output that may be applied, and one that may not.
  abbrev pub IsDecision : Bytes → ℕ → Decision → Type 0
  IsDecision output subtotal_cents d =
      (length output ≤ 65536)
      × (from_slice output ≡ some d)
      × (d.discount_cents ≤ subtotal_cents)
      × (char_count d.message ≤ 200)

  abbrev pub IsBad : Bytes → ℕ → Type 0
  IsBad output subtotal_cents =
      (65536 < length output)
      ⊎ (from_slice output ≡ none)
      ⊎ ((d : Decision) × (from_slice output ≡ some d)
          × ((subtotal_cents < d.discount_cents) ⊎ (200 < char_count d.message)))

  abbrev pub Policy : Result InvokeError Bytes → ℕ → Verdict → Type 0
  Policy result subtotal_cents (hook d) =
      (output : Bytes) × (result ≡ ok output) × IsDecision output subtotal_cents d
  Policy result subtotal_cents no_hook = result ≡ err not_found
  Policy result subtotal_cents retry = (result ≡ err overloaded) ⊎ (result ≡ err tenant_busy)
  Policy result subtotal_cents (fail_open (inl why)) =
      (output : Bytes) × (result ≡ ok output) × IsBad output subtotal_cents
  Policy result subtotal_cents (fail_open (inr e)) =
      (result ≡ err e) × (e ≢ not_found) × (e ≢ overloaded) × (e ≢ tenant_busy)

  parse_decision-Policy :
      (output : Bytes) (subtotal_cents : ℕ)
      → Policy
          (ok output)
          subtotal_cents
          (resolve_output from_slice (parse_decision from_slice output subtotal_cents))
  unfolding parse_decision resolve_output
  parse_decision-Policy output subtotal_cents = elim (Bool-cases (leb (length output) 65536)) [
    | inr long ↦ rw (long, parse_decision) (output, refl, inl (ground arith))
    | inl short ↦ elim (Option-cases (from_slice output)) [
      | inl bad ↦ rw (short, parse_decision) (rw bad (output, refl, inr (inl bad)))
      | inr (d, parsed) ↦ elim (Bool-cases (leb d.discount_cents subtotal_cents)) [
        | inr much ↦
            rw (short, parse_decision)
              (rw (parsed, much) (output, refl, inr (inr (d, parsed, inl (ground arith)))))
        | inl within ↦ elim (Bool-cases (leb (char_count d.message) 200)) [
          | inr wordy ↦
              rw (short, parse_decision)
                (rw (parsed, within, wordy)
                  (output, refl, inr (inr (d, parsed, inr (ground arith)))))
          | inl brief ↦
              rw (short, parse_decision)
                (rw (parsed, within, brief)
                  (output, refl, (ground arith, parsed, ground arith, ground arith)))
        ]
      ]
    ]
  ]

  -- A hook's decision is applied exactly if its output is at most 64 KiB, parses, grants at most the
  -- subtotal and says at most 200 characters; any other output is passed over in favour of the
  -- sale. A merchant without a hook has no say, a full server asks for a retry, and every other
  -- failure of the call, and no other, is passed over too.
  pub resolve_verdict-Policy :
      (result : Result InvokeError Bytes) (subtotal_cents : ℕ)
      → Policy result subtotal_cents (resolve_verdict from_slice result subtotal_cents)
  unfolding resolve_verdict
  resolve_verdict-Policy (ok output) subtotal_cents = parse_decision-Policy output subtotal_cents
  resolve_verdict-Policy (err not_found) subtotal_cents = refl
  resolve_verdict-Policy (err overloaded) subtotal_cents = inl refl
  resolve_verdict-Policy (err tenant_busy) subtotal_cents = inr refl
  resolve_verdict-Policy (err invalid_name) subtotal_cents = (refl, (λ q. cc), (λ q. cc), (λ q. cc))
  resolve_verdict-Policy (err (invalid_limits e)) subtotal_cents =
      (refl, (λ q. cc), (λ q. cc), (λ q. cc))
  resolve_verdict-Policy (err (cpu_budget_exceeded u n)) subtotal_cents =
      (refl, (λ q. cc), (λ q. cc), (λ q. cc))
  resolve_verdict-Policy (err (memory_cap_exceeded u n)) subtotal_cents =
      (refl, (λ q. cc), (λ q. cc), (λ q. cc))
  resolve_verdict-Policy (err (wall_clock_timeout u)) subtotal_cents =
      (refl, (λ q. cc), (λ q. cc), (λ q. cc))
  resolve_verdict-Policy (err (output_too_large u n)) subtotal_cents =
      (refl, (λ q. cc), (λ q. cc), (λ q. cc))
  resolve_verdict-Policy (err (guest_trap u s)) subtotal_cents =
      (refl, (λ q. cc), (λ q. cc), (λ q. cc))
  resolve_verdict-Policy (err (load e)) subtotal_cents = (refl, (λ q. cc), (λ q. cc), (λ q. cc))
