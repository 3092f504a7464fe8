-- ===== src/Sandbox/Fetch/Body.antt =====
-- The capped read of a response body in `http_fetch` of crates/core/src/sandbox.rs.
use warpline.Base.{
  ◌+◌, ◌^◌, ◌≤◌, ◌<◌, ◌≡◌, refl, ap, ◌∙◌, ◌↔◌, inl, inr, false, [], ◌++◌, Option, none, some, arith,
  ltb, Bool-cases, Option-cases, length, length-append, wrapping_add, ok, Bytes, bytes_eq, pair_eq,
}
use mathlib.Core.List.{append_assoc, append-nil}
use warpline.Sandbox.Fetch.{Chunks, done, broken, chunk, read_body}

-- All the bytes that arrive, if the body arrives whole.
abbrev pub content : Chunks → Option Bytes
content done = some []
content broken = none
content (chunk c rest) = elim (content rest) [ none ↦ none | some r ↦ some (c ++ r) ]

-- No chunk is larger than memory.
abbrev pub Sized : Chunks → Type 0
Sized done = Unit
Sized broken = Unit
Sized (chunk c rest) = (length c < 2 ^ 63) × Sized rest

read_body_sound :
    (body : Bytes) (cs : Chunks) (b : Bytes)
    → Sized cs
    → length body ≤ 1048576
    → read_body body cs ≡ ok b
    → (r : Bytes) × (content cs ≡ some r) × (b ≡ body ++ r) × (length b ≤ 1048576)
unfolding read_body
read_body_sound body done b sz le h = ([], refl, ground (arith, append-nil body), ground arith)
read_body_sound body broken b sz le h = absurd (ground arith)
read_body_sound body (chunk c rest) b sz le h =
    elim (Bool-cases (ltb 1048576 (wrapping_add (length body) (length c)))) [
      | inl over ↦ absurd (ground arith)
      | inr fits ↦
          let (r, e, eq, len) =
            read_body_sound (body ++ c) rest b sz.1 (ground (arith, length-append body c))
              (ground arith) in
          (c ++ r, rw e refl, eq ∙ append_assoc body c r, len)
    ]

read_body_complete :
    (body : Bytes) (cs : Chunks) (r : Bytes)
    → Sized cs
    → content cs ≡ some r
    → length body + length r ≤ 1048576
    → read_body body cs ≡ ok (body ++ r)
unfolding read_body
read_body_complete body done r sz e le = ground (arith, append-nil body)
read_body_complete body broken r sz e le = absurd (ground arith)
read_body_complete body (chunk c rest) r sz e le = elim (Option-cases (content rest)) [
  | inl n ↦ absurd (ground arith)
  | inr (r', e') ↦
      let eq : r ≡ c ++ r' = ground arith in
      let len : length r ≡ length c + length r' = ap length eq ∙ length-append c r' in
      let fits : ltb 1048576 (wrapping_add (length body) (length c)) ≡ false = ground arith in
      let more =
        read_body_complete (body ++ c) rest r' sz.1 e' (omega (arith, length-append body c)) in
      rw (fits, more, eq) (ap ok (append_assoc body c r'))
]

-- A body is read exactly when it arrives whole and has at most 1 MiB, and then it is the
-- concatenation of its chunks. Each chunk is shorter than 2^63 bytes.
pub read_body_iff :
    (cs : Chunks) (b : Bytes)
    → Sized cs
    → (read_body [] cs ≡ ok b) ↔ ((content cs ≡ some b) × (length b ≤ 1048576))
read_body_iff cs b sz = (
  λ h. let (r, e, eq, len) = read_body_sound [] cs b sz (omega arith) h in (rw eq e, len),
  λ h. read_body_complete [] cs b sz h.0 (let len = h.1 in omega arith),
)
