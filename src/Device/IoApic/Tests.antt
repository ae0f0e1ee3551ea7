-- ===== src/Device/IoApic/Tests.antt =====
-- The theorems on ioapic.rs at pin 4 of a table of unset entries.
use alioth.Base.{◌≡◌, refl, some, replicate, arith}
use alioth.Device.IoApic.{IoApicRegs, service_pin}
use alioth.Device.IoApic.Message.{service_pin_lem}

abbrev regs : IoApicRegs
regs = record { id = 0; redirtbl = replicate 24 0x200000000000031; select = 0 }

service_pin_lem_example : service_pin regs 4 ≡ some (0xfee02000, 0x31)
service_pin_lem_example = service_pin_lem regs 4 0x200000000000031 refl (omega arith)
