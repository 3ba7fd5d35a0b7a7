-- ===== src/Nand/WriteBuffer.antt =====
-- The write buffer: `buffer_allocate`, `buffer_release`, `buffer_refill` of ssd.c. The spin lock
-- makes each of them one step.
use nvmevirt_slc_cache.Common.{
  ℕ, ◌+◌, ◌-◌, ◌^◌, ◌≤◌, ◌<◌, ◌≡◌, ◌⊎◌, arith, none, some, ltb, leb, if◌then◌else◌, u32, u64, St,
}
use nvmevirt_slc_cache.Nand.State.{Buffer}

-- The result is the size that was allocated, all of it or 0, cut to a `uint32_t`; the buffer loses all of
-- it.
unfoldable pub buffer_allocate : ℕ → St Buffer ℕ
buffer_allocate size b =
    if leb size b.size
    then if ltb b.remaining size
      then some (0, b)
      else some (u32 size, record b { remaining = b.remaining - size })
    else none

unfoldable pub buffer_release : ℕ → Buffer → Buffer
buffer_release size b = record b { remaining = u64 (b.remaining + size) }

unfoldable pub buffer_refill : Buffer → Buffer
buffer_refill b = record b { remaining = b.size }

-- An allocation below 4 GB that the buffer can ever hold gives the whole size and takes it off, if so much
-- remains, and otherwise gives 0 and changes nothing.
pub buffer_allocate_cases :
    (size : ℕ) (b : Buffer)
    → size ≤ b.size
    → size < 2 ^ 32
    → ((size ≤ b.remaining)
        × (buffer_allocate size b ≡ some (size, record b { remaining = b.remaining - size })))
      ⊎ ((b.remaining < size) × (buffer_allocate size b ≡ some (0, b)))
unfolding buffer_allocate
buffer_allocate_cases size b h k = ground arith

-- Releasing what was allocated gives the buffer back as it was, for a positive size below 2^32,
-- which the result of the allocation holds whole, and a buffer whose space is below 2^64.
pub buffer_release-allocate :
    (size : ℕ) (b : Buffer) {c : Buffer}
    → b.remaining < 2 ^ 64
    → size < 2 ^ 32
    → 0 < size
    → buffer_allocate size b ≡ some (size, c)
    → (buffer_release size c ≡ b) × (c.remaining + size ≡ b.remaining)
unfolding buffer_allocate buffer_release
buffer_release-allocate size b w k p e = ground arith

-- A request above the size of the buffer fails the assertion and stops the kernel.
pub buffer_allocate_oversize :
    (size : ℕ) (b : Buffer) → b.size < size → buffer_allocate size b ≡ none
unfolding buffer_allocate
buffer_allocate_oversize size b h = ground arith
