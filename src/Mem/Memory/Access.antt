-- ===== src/Mem/Memory/Access.antt =====
-- alioth/src/mem/mem.rs: the exits of a virtual processor that reads or writes a device.
use alioth.Base.{ℕ, Option, none, some}
use alioth.Base.Word.{u32}
use alioth.Mem.Call.{Call, pure, ◌>>=◌, ◌>>◌}
use alioth.Mem.Addressable.{SlotBackend}
use alioth.Mem.Emulated
use alioth.Mem.Emulated.{Mmio, Action, no_action, shutdown, reset, change_layout}
use alioth.Mem.Memory.{State, in_world}

-- `enum VmEntry` of hv.rs, as far as memory makes it.
pub data VmEntry : Type 0 where
  nothing : VmEntry
  shut_down : VmEntry
  reboot : VmEntry
  io : (value : Option ℕ) → VmEntry
  mmio : (value : ℕ) → VmEntry

-- `change` is what `ChangeLayout::change` does for each callback.
module _ {W C D : Type 0} ⦃sb : SlotBackend D⦄ (mm : Mmio W C D)
    (change : C → Call (State W D) (Unit {0})) where
  pub handle_action : Action C → VmEntry → Call (State W D) VmEntry
  handle_action no_action entry = pure entry
  handle_action shutdown entry = pure shut_down
  handle_action reset entry = pure reboot
  handle_action (change_layout callback) entry = change callback >> pure entry

  unfoldable pub handle_mmio : ℕ → Option ℕ → (size : ℕ) → Call (State W D) VmEntry
  unfolding handle_action
  handle_mmio gpa (some val) size (m, w) =
      (in_world (Emulated.write mm m.mmio_bus gpa size val) >>= λ action.
      handle_action action nothing)
        (m, w)
  handle_mmio gpa none size (m, w) =
      (in_world (Emulated.read mm m.mmio_bus gpa size) >>= λ value. pure (mmio value)) (m, w)

  unfoldable pub handle_io : ℕ → Option ℕ → (size : ℕ) → Call (State W D) VmEntry
  unfolding handle_action
  handle_io port (some val) size (m, w) =
      (in_world (Emulated.write mm m.io_bus port size val) >>= λ action.
      handle_action action (io none))
        (m, w)
  handle_io port none size (m, w) =
      (in_world (Emulated.read mm m.io_bus port size) >>= λ value. pure (io (some (u32 value))))
        (m, w)
