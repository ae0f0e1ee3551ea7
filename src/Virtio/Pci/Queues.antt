-- ===== src/Virtio/Pci/Queues.antt =====
-- How a driver sets the addresses of a queue's parts, and what it reads back.
use alioth.Base.{
  ℕ, ◌+◌, ◌*◌, ◌/◌, ◌%◌, ◌^◌, ◌<◌, ◌≡◌, ◌≢◌, refl, ap, ◌∙◌, none, some, get_elem?,
  get_elem?-set_self, get_elem?-set_ne, get_elem?-lt, set, arith,
}
use alioth.Base.Word.{u32}
use alioth.Utils.{set_low32, set_high32, get_atomic_low32, get_atomic_high32}
use alioth.Utils.Halves.{set_low32_lem, set_high32_lem}
use alioth.Virtio.Pci.{
  VirtioPciRegister, QueueReg, Field, field_at, field_from, queue_desc_lo, queue_desc_hi,
  queue_driver_lo, queue_driver_hi, queue_device_lo, queue_device_hi,
}
use alioth.Virtio.Pci.Access.{read, write, read_field, write_field, selected, on_selected}

-- The three addresses of a queue.
pub data Address : Type 0 where
  desc_addr : Address
  driver_addr : Address
  device_addr : Address

-- The offset of the low half; the high half is 4 bytes after it.
abbrev pub lo_offset : Address → ℕ
lo_offset desc_addr = 32
lo_offset driver_addr = 40
lo_offset device_addr = 48

abbrev pub address : Address → QueueReg → ℕ
address desc_addr q = q.desc
address driver_addr q = q.driver
address device_addr q = q.device

abbrev pub with_address : Address → QueueReg → ℕ → QueueReg
with_address desc_addr q v = record q { desc = v }
with_address driver_addr q v = record q { driver = v }
with_address device_addr q v = record q { device = v }

abbrev lo_field : Address → Field
lo_field desc_addr = queue_desc_lo
lo_field driver_addr = queue_driver_lo
lo_field device_addr = queue_device_lo

abbrev hi_field : Address → Field
hi_field desc_addr = queue_desc_hi
hi_field driver_addr = queue_driver_hi
hi_field device_addr = queue_device_hi

whole :
    (x lo hi : ℕ)
    → x < 2 ^ 64
    → lo < 2 ^ 32
    → hi < 2 ^ 32
    → set_high32 (set_low32 x (u32 lo)) (u32 hi) ≡ hi * 2 ^ 32 + lo
whole x lo hi b l k =
    let low : u32 lo ≡ lo = omega arith in
    let same : u32 hi ≡ hi = omega arith in
    rw low (
      rw same (
        rw (set_low32_lem x lo b l)
          (rw (set_high32_lem (x / 2 ^ 32 * 2 ^ 32 + lo) hi k) (omega arith))))

lo_place : (a : Address) → field_at (lo_offset a) 4 ≡ some (lo_field a)
unfolding field_from
lo_place desc_addr = refl
lo_place driver_addr = refl
lo_place device_addr = refl

hi_place : (a : Address) → field_at (lo_offset a + 4) 4 ≡ some (hi_field a)
unfolding field_from
hi_place desc_addr = refl
hi_place driver_addr = refl
hi_place device_addr = refl

-- The low half and then the high half make the whole.
both_halves :
    (a : Address) (q : QueueReg) (lo hi : ℕ)
    → address a q < 2 ^ 64
    → lo < 2 ^ 32
    → hi < 2 ^ 32
    → with_address a
        (with_address a q (set_low32 (address a q) (u32 lo)))
        (set_high32 (address a (with_address a q (set_low32 (address a q) (u32 lo)))) (u32 hi))
      ≡ with_address a q (hi * 2 ^ 32 + lo)
both_halves desc_addr q lo hi h l k = ap (λ v. record q { desc = v }) (whole q.desc lo hi h l k)
both_halves driver_addr q lo hi h l k =
    ap (λ v. record q { driver = v }) (whole q.driver lo hi h l k)
both_halves device_addr q lo hi h l k =
    ap (λ v. record q { device = v }) (whole q.device lo hi h l k)

high : (x : ℕ) → x < 2 ^ 64 → u32 (x / 2 ^ 32) ≡ x / 2 ^ 32
high x h = omega arith

module _ {F : Type 0} where
  -- The state in which the selected queue is `q`.
  abbrev with_queue : VirtioPciRegister F → QueueReg → VirtioPciRegister F
  with_queue s q = record s { queues = set s.queues (s.reg.queue_sel) q }

  pub write_known :
      (s : VirtioPciRegister F) (offset size v : ℕ) (f : Field)
      → field_at offset size ≡ some f
      → write s offset size v ≡ write_field s f v
  unfolding write
  write_known s offset size v f e = rw (e, write) refl

  read_known :
      (s : VirtioPciRegister F) (offset size : ℕ) (f : Field)
      → field_at offset size ≡ some f
      → read s offset size ≡ read_field s f
  unfolding read
  read_known s offset size f e = rw (e, read) refl

  set_lo :
      (a : Address) (s : VirtioPciRegister F) (q : QueueReg) (v : ℕ)
      → get_elem? s.queues (s.reg.queue_sel) ≡ some q
      → write_field s (lo_field a) v
        ≡ some (with_queue s (with_address a q (set_low32 (address a q) (u32 v))), none)
  unfolding write_field
  set_lo desc_addr s q v e = rw (e, on_selected) refl
  set_lo driver_addr s q v e = rw (e, on_selected) refl
  set_lo device_addr s q v e = rw (e, on_selected) refl

  set_hi :
      (a : Address) (s : VirtioPciRegister F) (q : QueueReg) (v : ℕ)
      → get_elem? s.queues (s.reg.queue_sel) ≡ some q
      → write_field s (hi_field a) v
        ≡ some (with_queue s (with_address a q (set_high32 (address a q) (u32 v))), none)
  unfolding write_field
  set_hi desc_addr s q v e = rw (e, on_selected) refl
  set_hi driver_addr s q v e = rw (e, on_selected) refl
  set_hi device_addr s q v e = rw (e, on_selected) refl

  -- Where the selected queue exists, writing the low half and then the high half of one of its
  -- addresses succeeds, sends no event, and gives that queue the address, and nothing else changes
  -- in it or in another queue.
  pub write-address :
      (a : Address) (s : VirtioPciRegister F) (q : QueueReg) (lo hi : ℕ)
      → get_elem? s.queues (s.reg.queue_sel) ≡ some q
      → address a q < 2 ^ 64
      → lo < 2 ^ 32
      → hi < 2 ^ 32
      → (s1 s2 : VirtioPciRegister F) × (write s (lo_offset a) 4 lo ≡ some (s1, none))
        × (write s1 (lo_offset a + 4) 4 hi ≡ some (s2, none))
        × (get_elem? s2.queues (s.reg.queue_sel) ≡ some (with_address a q (hi * 2 ^ 32 + lo)))
        × ((j : ℕ) → s.reg.queue_sel ≢ j → get_elem? s2.queues j ≡ get_elem? s.queues j)
  write-address a s q lo hi e h l k =
      let q1 = with_address a q (set_low32 (address a q) (u32 lo)) in
      let q2 = with_address a q1 (set_high32 (address a q1) (u32 hi)) in
      let s1 = with_queue s q1 in
      let there : get_elem? s1.queues (s.reg.queue_sel) ≡ some q1 =
        get_elem?-set_self s.queues (s.reg.queue_sel) q1
          (get_elem?-lt s.queues (s.reg.queue_sel) e) in
      (
        s1,
        with_queue s1 q2,
        write_known s (lo_offset a) 4 lo (lo_field a) (lo_place a) ∙ set_lo a s q lo e,
        write_known s1 (lo_offset a + 4) 4 hi (hi_field a) (hi_place a) ∙ set_hi a s1 q1 hi there,
        get_elem?-set_self s1.queues (s.reg.queue_sel) q2
              (get_elem?-lt s1.queues (s.reg.queue_sel) there)
            ∙ ap (λ (x : QueueReg). some x) (both_halves a q lo hi h l k),
        λ j apart.
            get_elem?-set_ne s1.queues {i = s.reg.queue_sel} {j = j} q2 apart
            ∙ get_elem?-set_ne s.queues {i = s.reg.queue_sel} {j = j} q1 apart,
      )

  -- What is read at the two halves: for the descriptor address both halves, but for the driver and
  -- the device address the high half at either place.
  read-address :
      (a : Address) (s : VirtioPciRegister F) (q : QueueReg)
      → get_elem? s.queues (s.reg.queue_sel) ≡ some q
      → address a q < 2 ^ 64
      → (read s (lo_offset a) 4
          ≡ some (elim a [
            | desc_addr ↦ q.desc % 2 ^ 32
            | driver_addr ↦ q.driver / 2 ^ 32
            | device_addr ↦ q.device / 2 ^ 32
          ]))
        × (read s (lo_offset a + 4) 4 ≡ some (address a q / 2 ^ 32))
  unfolding read read_field get_atomic_low32 get_atomic_high32 field_from
  read-address desc_addr s q e h =
      (rw (e, selected) refl, rw (e, selected) (ap some (high q.desc h)))
  read-address driver_addr s q e h =
      (rw (e, selected) (ap some (high q.driver h)), rw (e, selected) (ap some (high q.driver h)))
  read-address device_addr s q e h =
      (rw (e, selected) (ap some (high q.device h)), rw (e, selected) (ap some (high q.device h)))
