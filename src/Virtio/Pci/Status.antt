-- ===== src/Virtio/Pci/Status.antt =====
-- Starting and resetting a device through its status register.
use alioth.Base.{
  ℕ, ◌+◌, ◌*◌, ◌%◌, ◌^◌, ◌<◌, ◌≡◌, refl, ap, ◌∙◌, Bool, false, not, [], ◌∷◌, none, some, ◌==◌,
  if◌then◌else◌, get_elem?, get_elem?-map, bit_and, bit_or, bit_xor, arith,
}
use native.Mathlib.Nat.{mod-eq_of_lt}
use alioth.Base.Word.{u8}
use alioth.Base.Bits.{bit, bit_le_one, bit-bit_and, bit-bit_xor, bit_or-low_high}
use alioth.Virtio.Queue.Flag.{contains, contains-bit}
use alioth.Virtio.Pci.{
  VirtioPciRegister, QueueReg, start, reset_event, device_status, no_vector, field_at, field_from,
  driver_ok, dev_status, collect_features,
}
use alioth.Virtio.Pci.Access.{write, write_field, change_status, reset}
use alioth.Virtio.Pci.Queues.{write_known}

-- DRIVER_OK of a status byte.
abbrev pub is_driver_ok : ℕ → Bool
is_driver_ok status = bit 2 status == 1

status_place : field_at 20 1 ≡ some device_status
unfolding field_from
status_place = refl

-- The bits of DevStatus keep DRIVER_OK as it was written.
kept : (val : ℕ) → is_driver_ok (bit_and (u8 val) dev_status) ≡ is_driver_ok val
kept val = ground (arith, bit-bit_and 2 (u8 val) dev_status)

flipped : (old new : ℕ) → contains (bit_xor old new) driver_ok ≡ not (bit 2 old == bit 2 new)
flipped old new = contains-bit 2 (bit_xor old new) ∙ bit-bit_xor 2 old new

module _ {F : Type 0} where
  -- The state after a write of `val` to the status, and before anything that follows from it.
  abbrev pub with_status : VirtioPciRegister F → ℕ → VirtioPciRegister F
  with_status s val = record s { reg = record (s.reg) { status = bit_and (u8 val) dev_status } }

  change :
      (s : VirtioPciRegister F) (old new : ℕ)
      → change_status s old new ≡ (
          if is_driver_ok new
          then (if is_driver_ok old
              then (s, none)
              else (s, some (start (collect_features 0 (s.reg.driver_feature) 0))))
          else (if is_driver_ok old then (reset s, some reset_event) else (s, none)))
  change s old new =
      ground (arith, flipped old new, contains-bit 2 new, bit_le_one 2 old, bit_le_one 2 new)

  -- A write to the status register starts the device exactly if it sets DRIVER_OK where that was
  -- not set, with the features that the driver wrote; it resets the device exactly if it clears
  -- DRIVER_OK where it was set; and else it changes the status alone.
  pub write-status :
      (s : VirtioPciRegister F) (val : ℕ)
      → write s 20 1 val
        ≡ some (
            if is_driver_ok val
            then (if is_driver_ok (s.reg.status) then (with_status s val, none) else (
              with_status s val,
              some (start (collect_features 0 (s.reg.driver_feature) 0)),
            ))
            else (if is_driver_ok (s.reg.status)
                then (reset (with_status s val), some reset_event)
                else (with_status s val, none)))
  unfolding write_field
  write-status s val =
      write_known s 20 1 val device_status status_place
      ∙ ap (λ p. some p) (change (with_status s val) (s.reg.status) (bit_and (u8 val) dev_status))
      ∙ rw (kept val) refl

  -- After a reset no queue is enabled, no vector is set, and no entry of the table is bound.
  reset_lem :
      (s : VirtioPciRegister F) (j : ℕ)
      → ((reset s).msix_vector.config ≡ no_vector)
        × ((v : ℕ) → get_elem? ((reset s).msix_vector.queues) j ≡ some v → v ≡ no_vector)
        × ((q : QueueReg) → get_elem? (reset s).queues j ≡ some q → q.enabled ≡ false)
  unfolding reset
  reset_lem s j = (
    refl,
    λ v e. (get_elem?-map (s.msix_vector.queues) (λ x. no_vector) j v e).1,
    λ q e.
        let (x, same) =
          get_elem?-map {A = QueueReg} s.queues (λ x. record x { enabled = false }) j q e in
        ap (λ (y : QueueReg). y.enabled) same,
  )

-- A word joins the words below it.
joined :
    (k acc v : ℕ)
    → acc < 2 ^ k
    → v * 2 ^ k < 2 ^ 128
    → bit_or acc (v * 2 ^ k % 2 ^ 128) ≡ v * 2 ^ k + acc
joined k acc v h fits =
    let fitting : v * 2 ^ k % 2 ^ 128 ≡ v * 2 ^ k = mod-eq_of_lt fits in
    rw fitting (bit_or-low_high k v acc h)

-- The feature set that `start` carries: the words of the driver, the first lowest.
collect_features_lem :
    (a b c d : ℕ)
    → a < 2 ^ 32
    → b < 2 ^ 32
    → c < 2 ^ 32
    → d < 2 ^ 32
    → collect_features 0 (a ∷ b ∷ c ∷ d ∷ []) 0 ≡ a + b * 2 ^ 32 + c * 2 ^ 64 + d * 2 ^ 96
unfolding collect_features
collect_features_lem a b c d ha hb hc hd =
    let e1 : bit_or 0 (a * 2 ^ 0 % 2 ^ 128) ≡ a =
      omega (arith, joined 0 0 a (omega arith) (omega arith)) in
    let e2 : bit_or a (b * 2 ^ 32 % 2 ^ 128) ≡ b * 2 ^ 32 + a = joined 32 a b ha (omega arith) in
    let e3 : bit_or (b * 2 ^ 32 + a) (c * 2 ^ 64 % 2 ^ 128) ≡ c * 2 ^ 64 + (b * 2 ^ 32 + a) =
      joined 64 (b * 2 ^ 32 + a) c (omega arith) (omega arith) in
    let e4 : bit_or (c * 2 ^ 64 + (b * 2 ^ 32 + a)) (d * 2 ^ 96 % 2 ^ 128)
        ≡ d * 2 ^ 96 + (c * 2 ^ 64 + (b * 2 ^ 32 + a)) =
      joined 96 (c * 2 ^ 64 + (b * 2 ^ 32 + a)) d (omega arith) (omega arith) in
    ap
      (λ x.
        bit_or (bit_or (bit_or x (b * 2 ^ 32 % 2 ^ 128)) (c * 2 ^ 64 % 2 ^ 128))
          (d * 2 ^ 96 % 2 ^ 128))
      e1
    ∙ ap (λ x. bit_or (bit_or x (c * 2 ^ 64 % 2 ^ 128)) (d * 2 ^ 96 % 2 ^ 128)) e2
    ∙ ap (λ x. bit_or x (d * 2 ^ 96 % 2 ^ 128)) e3
    ∙ e4
    ∙ omega arith
