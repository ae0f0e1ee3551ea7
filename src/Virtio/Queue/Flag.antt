-- ===== src/Virtio/Queue/Flag.antt =====
-- `DescFlag` of alioth/src/virtio/queue/queue.rs, and `contains`, `insert` and `remove` of a set of
-- flags, as the `bitflags` macro gives them for a 16-bit word.
use alioth.Base.{
  ℕ, ◌-◌, ◌*◌, ◌^◌, ◌≡◌, Bool, Bool-cases, inl, inr, ap, bit_and, bit_or, ◌==◌, arith,
}
use native.Mathlib.Nat.{one-le-pow}
use alioth.Base.Bits.{bit, bit_le_one, bit_and_single}

abbrev pub contains : ℕ → ℕ → Bool
contains bits flag = bit_and bits flag == flag

abbrev pub insert : ℕ → ℕ → ℕ
insert bits flag = bit_or bits flag

abbrev pub remove : ℕ → ℕ → ℕ
remove bits flag = bit_and bits (2 ^ 16 - 1 - flag)

abbrev pub next : ℕ
next = 2 ^ 0

abbrev pub write : ℕ
write = 2 ^ 1

abbrev pub indirect : ℕ
indirect = 2 ^ 2

abbrev pub avail : ℕ
avail = 2 ^ 7

abbrev pub used : ℕ
used = 2 ^ 15

-- A test of one flag looks at its bit.
pub contains-bit : (k x : ℕ) → contains x (2 ^ k) ≡ (bit k x == 1)
contains-bit k x = elim (Bool-cases (bit k x == 1)) [
  | inl one ↦
      let e : bit k x ≡ 1 = ground arith in
      ground (arith, bit_and_single k x, ap (λ (t : ℕ). t * 2 ^ k) e)
  | inr other ↦
      let e : bit k x ≡ 0 = ground (arith, bit_le_one k x) in
      ground (arith, bit_and_single k x, one-le-pow k 2, ap (λ (t : ℕ). t * 2 ^ k) e)
]
