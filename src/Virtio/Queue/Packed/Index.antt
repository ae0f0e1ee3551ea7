-- ===== src/Virtio/Queue/Packed/Index.antt =====
-- `WrappedIndex` of packed.rs as a counter of ring positions.
use alioth.Base.{ℕ, ◌+◌, ◌*◌, ◌^◌, ◌<◌, ◌≤◌, ◌≡◌, ◌⊎◌, if◌then◌else◌, arith}
use alioth.Virtio.Queue.Packed.{offset, wrap_counter, wrapping_add, wrapping_sub}

-- An index that a ring of `size` descriptors has: 16 bits, with the offset in the ring.
pub record InRing (size w : ℕ) : Type 0 where
  pub word : w < 2 ^ 16
  pub inside : offset w < size
  pub small : size ≤ 2 ^ 15

-- The position in two rounds of the ring: the first has the wrap counter set.
abbrev pub position : ℕ → ℕ → ℕ
position size w = if wrap_counter w then offset w else offset w + size

-- Going `n` positions on from `a` leads to `b`, modulo two rounds.
abbrev pub Leads : (size a n b : ℕ) → Type 0
Leads size a n b =
    (position size a + n ≡ position size b) ⊎ (position size a + n ≡ position size b + 2 * size)

-- Adding at most a round stays in the ring, and adds to the position.
pub wrapping_add-position :
    (size w delta : ℕ)
    → InRing size w
    → delta ≤ size
    → InRing size (wrapping_add w delta size) × Leads size w delta (wrapping_add w delta size)
unfolding wrapping_add
wrapping_add-position size w delta r h = (ground arith, ground arith)

pub wrapping_sub-position :
    (size w delta : ℕ)
    → InRing size w
    → delta ≤ size
    → InRing size (wrapping_sub w delta size) × Leads size (wrapping_sub w delta size) delta w
unfolding wrapping_sub
wrapping_sub-position size w delta r h = (ground arith, ground arith)

-- Two indices of the ring with the same position are the same.
pub position_inj :
    (size a b : ℕ) → InRing size a → InRing size b → position size a ≡ position size b → a ≡ b
position_inj size a b r s e = ground arith

pub position_below : (size a : ℕ) → InRing size a → position size a < 2 * size
position_below size a r = ground arith
