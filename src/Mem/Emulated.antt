-- ===== src/Mem/Emulated.antt =====
-- alioth/src/mem/emulated.rs: devices behind guest addresses. A device is a handle, shared as an
-- `Arc` is, and what its handlers do to the rest of the world is a parameter.
use alioth.Base.{
  zero, suc, ◌+◌, ◌*◌, ◌/◌, ◌%◌, leb, ◌==◌, ◌||◌, length, take, drop, if◌then◌else◌, [], ◌∷◌, ℕ,
  ◌-◌, ◌^◌, Bool, List, Option, none, some, Result, ok, ◌>>=◌,
}
use alioth.Mem.Error.{Error}
use alioth.Mem.Call.{Call}
use alioth.Mem.Addressable
use alioth.Mem.Addressable.{SlotBackend, Addressable}

-- `Action`, with the type of what `ChangeLayout` calls back.
pub data Action {ℓ} (C : Type ℓ) : Type ℓ where
  no_action : Action C
  shutdown : Action C
  reset : Action C
  change_layout : (callback : C) → Action C

-- `trait Mmio`; its `size` is that of `SlotBackend`, to which the handles pass it on.
pub record Mmio {ℓ κ ι} (W : Type ℓ) (C : Type κ) (D : Type ι) : Type (ℓ ⊔ κ ⊔ ι) where
  pub read : D → (offset size : ℕ) → Call W ℕ
  pub write : D → (offset size val : ℕ) → Call W (Action C)

-- The bytes of a value of `n` bytes, the lowest first, and the value of such bytes.
abbrev pub to_le_bytes : (n x : ℕ) → List ℕ
to_le_bytes zero x = []
to_le_bytes (suc n) x = x % 256 ∷ to_le_bytes n (x / 256)

abbrev pub from_le_bytes : List ℕ → ℕ
from_le_bytes [] = 0
from_le_bytes (b ∷ bs) = b + 256 * from_le_bytes bs

-- `impl_mmio_for_zerocopy!`: what a value reads as, by its bytes. It ignores writes.
unfoldable pub read_from_prefix : (n : ℕ) → List ℕ → Option ℕ
read_from_prefix n bytes =
    if leb n (length bytes) then some (from_le_bytes (take n bytes)) else none

unfoldable pub read_bytes : List ℕ → (offset size : ℕ) → ℕ
unfolding read_from_prefix
read_bytes bytes offset size =
    if size == 1 || size == 2 || size == 4 || size == 8
    then or_zero (read_from_prefix size (drop offset bytes))
    else 0
  where
    or_zero : Option ℕ → ℕ
    or_zero (some val) = val
    or_zero none = 0

pub record MmioBus {ι} (D : Type ι) : Type ι where
  pub inner : Addressable D

unfoldable pub new {ι} : {D : Type ι} → MmioBus D
new = record { inner = Addressable.new }

unfoldable pub is_empty {ι} : {D : Type ι} → MmioBus D → Bool
is_empty bus = Addressable.is_empty bus.inner

module _ {ι} {D : Type ι} ⦃sb : SlotBackend D⦄ where
  unfoldable pub add : MmioBus D → ℕ → D → Result Error (MmioBus D)
  add bus addr range = do
    inner ← Addressable.add bus.inner addr range
    ok (record { inner = inner })

  unfoldable pub remove : MmioBus D → ℕ → Result Error (MmioBus D × D)
  remove bus addr = do
    (inner, dev) ← Addressable.remove bus.inner addr
    ok (record { inner = inner }, dev)

  abbrev pub search : MmioBus D → ℕ → Option (ℕ × D)
  search bus addr = Addressable.search bus.inner addr

module _ {ℓ κ ι} {W : Type ℓ} {C : Type κ} {D : Type ι} ⦃sb : SlotBackend D⦄ (mm : Mmio W C D) where
  unfoldable pub read : MmioBus D → (addr size : ℕ) → Call W ℕ
  read bus addr size w = elim (search bus addr) [
    | none ↦ (ok (2 ^ 64 - 1), w)
    | some (start, dev) ↦ mm.read dev (addr - start) size w
  ]

  unfoldable pub write : MmioBus D → (addr size val : ℕ) → Call W (Action C)
  write bus addr size val w = elim (search bus addr) [
    | none ↦ (ok no_action, w)
    | some (start, dev) ↦ mm.write dev (addr - start) size val w
  ]
