-- ===== src/Device/IoApic/Message.antt =====
-- The message of a pin of ioapic.rs in terms of its redirection entry.
use alioth.Base.{
  ℕ, ◌+◌, ◌*◌, ◌/◌, ◌%◌, ◌^◌, ◌<◌, ◌≡◌, false, ◌&&◌, none, some, ◌==◌, if◌then◌else◌, get_elem?,
  arith,
}
use alioth.Device.IoApic.{IoApicRegs, service_pin, msi_addr_lo, msi_data, vector, delivery_mode}

addr_lem :
    (e : ℕ)
    → e < 2 ^ 64
    → msi_addr_lo e ≡ 0xfee00000 + e / 2 ^ 56 * 2 ^ 12 + e / 2 ^ 49 % 2 ^ 7 * 2 ^ 5
unfolding msi_addr_lo
addr_lem e h = omega arith

data_lem : (e : ℕ) → msi_data (vector e) (delivery_mode e) false false ≡ e % 2 ^ 11
unfolding msi_data
data_lem e = omega arith

-- A pin sends a message exactly if its entry is not masked, has a physical destination and is edge
-- triggered: to the destination of the entry, with its vector and delivery mode, which are the low
-- 11 bits.
pub service_pin_lem :
    (r : IoApicRegs) (pin e : ℕ)
    → get_elem? r.redirtbl pin ≡ some e
    → e < 2 ^ 64
    → service_pin r pin ≡ (
        if e / 2 ^ 16 % 2 == 0 && e / 2 ^ 11 % 2 == 0 && e / 2 ^ 15 % 2 == 0
        then some (0xfee00000 + e / 2 ^ 56 * 2 ^ 12 + e / 2 ^ 49 % 2 ^ 7 * 2 ^ 5, e % 2 ^ 11)
        else none)
unfolding service_pin
service_pin_lem r pin e at h = rw (at, service_pin) (ground (arith, addr_lem e h, data_lem e))
