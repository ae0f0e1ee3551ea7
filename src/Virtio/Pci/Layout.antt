-- ===== src/Virtio/Pci/Layout.antt =====
-- Where the common configuration structure of the virtio standard puts each field.
use alioth.Base.{
  ℕ, ◌+◌, ◌≡◌, refl, sym, ap, ◌∙◌, ◌↔◌, Bool, ◌&&◌, List, [], ◌∷◌, some, ◌==◌, if◌then◌else◌,
  Bool-cases, inl, inr, some_inj, arith,
}
use alioth.Virtio.Pci.{
  Field, device_feature_select, device_feature, driver_feature_select, driver_feature,
  config_msix_vector, num_queues, device_status, config_generation, queue_select, queue_size,
  queue_msix_vector, queue_enable, queue_notify_off, queue_desc_lo, queue_desc_hi, queue_driver_lo,
  queue_driver_hi, queue_device_lo, queue_device_hi, queue_notify_data, queue_reset, field_from,
  field_at, common_cfg,
}

-- Offset and size by the standard.
abbrev pub place : Field → ℕ × ℕ
place device_feature_select = (0x0, 4)
place device_feature = (0x4, 4)
place driver_feature_select = (0x8, 4)
place driver_feature = (0xc, 4)
place config_msix_vector = (0x10, 2)
place num_queues = (0x12, 2)
place device_status = (0x14, 1)
place config_generation = (0x15, 1)
place queue_select = (0x16, 2)
place queue_size = (0x18, 2)
place queue_msix_vector = (0x1a, 2)
place queue_enable = (0x1c, 2)
place queue_notify_off = (0x1e, 2)
place queue_desc_lo = (0x20, 4)
place queue_desc_hi = (0x24, 4)
place queue_driver_lo = (0x28, 4)
place queue_driver_hi = (0x2c, 4)
place queue_device_lo = (0x30, 4)
place queue_device_hi = (0x34, 4)
place queue_notify_data = (0x38, 2)
place queue_reset = (0x3a, 2)

-- Every field is found at the offset and with the size that the standard gives it.
pub field_at-place : (f : Field) → field_at (place f).0 (place f).1 ≡ some f
unfolding field_from
field_at-place device_feature_select = refl
field_at-place device_feature = refl
field_at-place driver_feature_select = refl
field_at-place driver_feature = refl
field_at-place config_msix_vector = refl
field_at-place num_queues = refl
field_at-place device_status = refl
field_at-place config_generation = refl
field_at-place queue_select = refl
field_at-place queue_size = refl
field_at-place queue_msix_vector = refl
field_at-place queue_enable = refl
field_at-place queue_notify_off = refl
field_at-place queue_desc_lo = refl
field_at-place queue_desc_hi = refl
field_at-place queue_driver_lo = refl
field_at-place queue_driver_hi = refl
field_at-place queue_device_lo = refl
field_at-place queue_device_hi = refl
field_at-place queue_notify_data = refl
field_at-place queue_reset = refl

-- The fields of a list stand at their places, one after another.
abbrev AllPlaced : ℕ → List (Field × ℕ) → Type 0
AllPlaced base [] = Unit
AllPlaced base ((f, n) ∷ fs) = (place f ≡ (base, n)) × AllPlaced (base + n) fs

field_from-place :
    (fs : List (Field × ℕ)) (base offset size : ℕ) (f : Field)
    → AllPlaced base fs
    → field_from fs base offset size ≡ some f
    → place f ≡ (offset, size)
unfolding field_from
field_from-place [] base offset size f a e = absurd (ground arith)
field_from-place ((g, n) ∷ fs) base offset size f (here, later) e =
    elim (Bool-cases (offset == base && size == n)) [
      | inl hit ↦
          let same : f ≡ g = some_inj f g (
            sym e
            ∙ ap (λ (b : Bool). if b then some g else field_from fs (base + n) offset size) hit) in
          let o : offset ≡ base = ground arith in
          let z : size ≡ n = ground arith in rw same (rw o (rw z here))
      | inr miss ↦ field_from-place fs (base + n) offset size f later (ground arith)
    ]

all_placed : AllPlaced 0 common_cfg
all_placed = (
  refl,
  (
    refl,
    (
      refl,
      (
        refl,
        (
          refl,
          (
            refl,
            (
              refl,
              (
                refl,
                (
                  refl,
                  (
                    refl,
                    (
                      refl,
                      (
                        refl,
                        (refl, (refl, (refl, (refl, (refl, (refl, (refl, (refl, (refl, tt))))))))),
                      ),
                    ),
                  ),
                ),
              ),
            ),
          ),
        ),
      ),
    ),
  ),
)

-- A field is found at the offset and with the size that the standard gives it, and nowhere else.
field_at_iff :
    (offset size : ℕ) (f : Field) → (field_at offset size ≡ some f) ↔ (place f ≡ (offset, size))
field_at_iff offset size f = (
  field_from-place common_cfg 0 offset size f all_placed,
  λ e. ap (λ (p : ℕ × ℕ). field_at p.0 p.1) (sym e) ∙ field_at-place f,
)
