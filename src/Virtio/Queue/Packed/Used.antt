-- ===== src/Virtio/Queue/Packed/Used.antt =====
-- A descriptor that packed.rs has marked used is not available again before the driver writes it.
use alioth.Base.{
  ℕ, ◌-◌, ◌^◌, ◌≡◌, Bool, true, false, ◌==◌, if◌then◌else◌, arith, inl, inr, Option-cases,
  Bool-cases, get_elem?, get_elem?-set_self, get_elem?-set_ne, get_elem?-lt,
}
use alioth.Base.Bits.{bit-bit_or, bit-bit_and}
use alioth.Virtio.Queue.Flag.{insert, remove, contains-bit}
use alioth.Virtio.Queue.Packed.{
  PackedQueue, offset, wrap_counter, set_used, set_flag_used, flag_is_avail, desc_avail, used_avail,
}

used_flag : (flag : ℕ) (w wrap : Bool) → flag_is_avail (set_flag_used flag w) wrap ≡ false
unfolding flag_is_avail set_flag_used
used_flag flag true wrap = ground (
  arith,
  contains-bit 7 (insert flag used_avail),
  contains-bit 15 (insert flag used_avail),
  bit-bit_or 7 flag used_avail,
  bit-bit_or 15 flag used_avail,
)
used_flag flag false wrap = ground (
  arith,
  contains-bit 7 (remove flag used_avail),
  contains-bit 15 (remove flag used_avail),
  bit-bit_and 7 flag (2 ^ 16 - 1 - used_avail),
  bit-bit_and 15 flag (2 ^ 16 - 1 - used_avail),
)

-- After `set_used` the descriptor there is not available, whatever the wrap counter it is looked at
-- with, and the availability of every other descriptor is as before.
desc_avail-set_used :
    (q : PackedQueue) (index id len j : ℕ)
    → desc_avail (set_used q index id len) j
      ≡ (if offset j == offset index then false else desc_avail q j)
unfolding desc_avail set_used
desc_avail-set_used q index id len j = elim (Option-cases (get_elem? q.desc (offset index))) [
  | inl out ↦ ground arith
  | inr (first, at) ↦
      let d = record first {
        id = id;
        len = len;
        flag = set_flag_used first.flag (wrap_counter index);
      } in
      elim (Bool-cases (offset j == offset index)) [
        | inl same ↦
            let e : offset j ≡ offset index = ground arith in
            ground (
              arith,
              e,
              get_elem?-set_self q.desc (offset index) d (get_elem?-lt q.desc (offset index) at),
              used_flag first.flag (wrap_counter index) (wrap_counter j),
            )
        | inr other ↦
            ground
              (arith, get_elem?-set_ne q.desc {i = offset index} {j = offset j} d (ground arith))
      ]
]
