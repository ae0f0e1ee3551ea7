-- ===== src/Virtio/Queue/Split/Index.antt =====
-- The free-running indices of split.rs.
use alioth.Base.{
  ℕ, suc, refl, inl, inr, Bool-cases, ◌≢◌, ◌+◌, ◌-◌, ◌%◌, ◌^◌, ◌<◌, ◌≤◌, ◌≡◌, ◌↔◌, true, none, some,
  ◌==◌, if◌then◌else◌, get_elem?, get_elem?-set_self, get_elem?-set_ne, length, arith,
}
use native.Mathlib.Nat.{one-le-pow}
use alioth.Base.Word.{u16}
use alioth.Base.Bits.{bit_and_low}
use alioth.Virtio.Queue.Split.{
  SplitQueue, desc_avail, index_add, set_used, set_used_index, wrapped_index, interrupt_enabled,
  flag_interrupt_enabled,
}

-- How many chains the driver has made available from `index` on.
abbrev pub queued : SplitQueue → ℕ → ℕ
queued q index = u16 (q.avail_hdr.idx + 2 ^ 16 - index)

-- The device's index and the driver's are 16 bits, and a ring holds at most `size` chains.
pub record InRing (q : SplitQueue) (index : ℕ) : Type 0 where
  pub word : index < 2 ^ 16
  pub avail_word : q.avail_hdr.idx < 2 ^ 16
  pub some_room : 0 < q.size
  pub small : q.size ≤ 2 ^ 15
  pub bounded : queued q index ≤ q.size

-- A descriptor is available exactly if the driver has queued a chain; taking it leaves one less.
pub desc_avail_iff :
    (q : SplitQueue) (index : ℕ)
    → InRing q index
    → ((desc_avail q index ≡ true) ↔ (0 < queued q index))
      × (desc_avail q index ≡ true
          → InRing q (index_add q index 1)
            × (queued q index ≡ suc (queued q (index_add q index 1))))
unfolding desc_avail index_add
desc_avail_iff q index r =
    ((λ a. ground arith, λ h. ground arith), λ a. (ground arith, ground arith))

-- A ring slot is the index modulo the size.
pub wrapped_index_lem :
    (q : SplitQueue) (index k : ℕ)
    → q.size ≡ 2 ^ k
    → q.size < 2 ^ 16
    → wrapped_index q index ≡ index % 2 ^ k
unfolding wrapped_index
wrapped_index_lem q index k e small =
    let mask : u16 (q.size + 2 ^ 16 - 1) ≡ 2 ^ k - 1 = omega (arith, one-le-pow k 2) in
    rw mask (bit_and_low k index)

mod_lt_pow : (x k : ℕ) → x % 2 ^ k < 2 ^ k
mod_lt_pow x k = ground (arith, one-le-pow k 2)

-- `set_used` fills the slot of its index and no other, and publishes the index after it.
set_used_lem :
    (q : SplitQueue) (index id len j k : ℕ)
    → q.size ≡ 2 ^ k
    → q.size < 2 ^ 16
    → length q.used_ring ≡ q.size
    → ((set_used q index id len).used_hdr.idx ≡ u16 (index + 1))
      × (get_elem? (set_used q index id len).used_ring (j % 2 ^ k) ≡ (
          if j % 2 ^ k == index % 2 ^ k
          then some (record { id = id; len = len })
          else get_elem? q.used_ring (j % 2 ^ k)))
unfolding set_used set_used_index
set_used_lem q index id len j k e small full = (
  refl,
  elim (Bool-cases (j % 2 ^ k == index % 2 ^ k)) [
    | inl same ↦
        let at : j % 2 ^ k ≡ wrapped_index q index =
          ground (arith, wrapped_index_lem q index k e small) in
        let lt : wrapped_index q index < length q.used_ring =
          ground (arith, wrapped_index_lem q index k e small, mod_lt_pow index k) in
        rw same (
          rw at (
            get_elem?-set_self q.used_ring (wrapped_index q index) (record { id = id; len = len })
              lt))
    | inr other ↦
        let apart : wrapped_index q index ≢ j % 2 ^ k =
          ground (arith, wrapped_index_lem q index k e small) in
        rw other (get_elem?-set_ne q.used_ring (record { id = id; len = len }) apart)
  ],
)

-- Once the device has published an index, the driver is interrupted exactly for the event index it
-- wrote, or, where there is none, unless it wrote a flag.
interrupt_enabled-set_used :
    (q : SplitQueue) (index id len delta : ℕ)
    → index < 2 ^ 16
    → interrupt_enabled (set_used q index id len) (index_add q index delta) delta
      ≡ elim q.used_event [ some event ↦ event == index | none ↦ q.avail_hdr.flags == 0 ]
unfolding interrupt_enabled set_used index_add flag_interrupt_enabled
interrupt_enabled-set_used q index id len delta h = ground arith
