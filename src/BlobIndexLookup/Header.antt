-- ===== src/BlobIndexLookup/Header.antt =====
-- The bytes that a Range header asks for.
use indexing_service.Prelude.{ℕ, ◌+◌, ◌-◌, ◌^◌, ◌≤◌, ◌<◌, ◌≡◌, some, arith}
use indexing_service.BlobIndexLookup.{Range, range_header}

-- A range of at least one byte that ends below 2^64 is asked for exactly: the last byte of the
-- header is the last byte of the range.
pub last-range_header :
    (rng : Range) (n : ℕ)
    → rng.length ≡ some n
    → 0 < n
    → rng.offset + n ≤ 2 ^ 64
    → ((range_header rng).first ≡ rng.offset)
      × ((range_header rng).last ≡ some (rng.offset + n - 1))
unfolding range_header
last-range_header rng n e lo hi = ground arith

-- An empty range at offset 0 names 2^64 - 1 as the last byte, and an empty range at another offset
-- ends before it begins.
pub last-range_header_zero :
    (rng : Range)
    → rng.length ≡ some 0
    → rng.offset < 2 ^ 64
    → ((rng.offset ≡ 0) → (range_header rng).last ≡ some (2 ^ 64 - 1))
      × (0 < rng.offset → (last : ℕ) × ((range_header rng).last ≡ some last) × (last < rng.offset))
unfolding range_header
last-range_header_zero rng e hi =
    (λ z. ground arith, λ p. (rng.offset - 1, ground arith, ground arith))
