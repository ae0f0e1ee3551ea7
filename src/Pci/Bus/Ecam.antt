-- ===== src/Pci/Bus/Ecam.antt =====
-- The ports of bus.rs against the configuration space of segment.rs.
use alioth.Base.{
  ℕ, ◌+◌, ◌*◌, ◌/◌, ◌%◌, ◌^◌, ◌<◌, ◌≡◌, refl, some, ok, true, bit_and, bit_or, arith, ap, ap₂, ◌∙◌,
}
use alioth.Base.Word.{u16, u32}
use alioth.Base.Bits.{bit_and_low, bit_and_high, bit_or-high_low}
use alioth.Base.Bits.Mod.{bit_and_mod}
use alioth.Mem.Emulated.{no_action}
use alioth.Pci.Bdf
use alioth.Pci.Bdf.{Bdf}
use alioth.Pci.Segment
use alioth.Pci.Segment.{PciSegment, PciConfig, Entry, read_entry, get}
use alioth.Pci.Bus.{PciBus, enabled, to_ecam_addr, read, write}

-- The address port for a register, by its word, of a function of a device on a bus.
abbrev pub port_address : (bus dev func reg : ℕ) → ℕ
port_address bus dev func reg = 2 ^ 31 + bus * 2 ^ 16 + dev * 2 ^ 11 + func * 2 ^ 8 + reg * 4

to_ecam_addr_lem :
    (bus dev func reg : ℕ)
    → bus < 2 ^ 8
    → dev < 2 ^ 5
    → func < 2 ^ 3
    → reg < 2 ^ 6
    → to_ecam_addr (port_address bus dev func reg) ≡ Bdf.new bus dev func * 2 ^ 12 + reg * 4
unfolding to_ecam_addr
to_ecam_addr_lem bus dev func reg b d f r =
    let v = port_address bus dev func reg in
    let low = bus * 2 ^ 16 + dev * 2 ^ 11 + func * 2 ^ 8 + reg * 4 in
    let q = Bdf.new bus dev func in
    let high : bit_and v 0xffff00 ≡ q * 2 ^ 8 = omega (
      arith,
      bit_and_mod 24 v 0xffff00 (omega arith),
      bit_and_high 8 24 (v % 2 ^ 24) (omega arith) (omega arith),
    ) in
    let word : bit_and v 0xfc ≡ reg * 4 = omega (
      arith,
      bit_and_mod 8 v 0xfc (omega arith),
      bit_and_high 2 8 (v % 2 ^ 8) (omega arith) (omega arith),
    ) in
    ap₂ bit_or (ap (λ x. x * 2 ^ 4) high) word
    ∙ ap (λ x. bit_or x (reg * 4)) {y = q * 2 ^ 12} (omega arith)
    ∙ bit_or-high_low 12 q (reg * 4) (omega arith)

module _ {P C : Type 0} (cfg : PciConfig P C) where
  segment_read :
      (s : PciSegment P) (q offset size : ℕ)
      → q < 2 ^ 16
      → offset < 2 ^ 12
      → Segment.read cfg s (q * 2 ^ 12 + offset) size ≡ read_entry cfg (get s.devices q) offset size
  unfolding Segment.read
  segment_read s q offset size h k =
      let number : u16 ((q * 2 ^ 12 + offset) / 2 ^ 12) ≡ q = omega arith in
      let within : bit_and (q * 2 ^ 12 + offset) 0xfff ≡ offset =
        omega (arith, bit_and_low 12 (q * 2 ^ 12 + offset)) in
      ap₂ (λ b o. read_entry cfg (get s.devices b) o size) number within

  data_port :
      (b : PciBus P) (k size : ℕ)
      → k < 4
      → enabled b.address ≡ true
      → read cfg b (4 + k) size
        ≡ Segment.read cfg b.segment (bit_or (to_ecam_addr b.address) (bit_and (4 + k) 3)) size
  unfolding read
  data_port b k size h e = ground arith

  -- Writing the address port and reading the data port reads the configuration space of the
  -- function at the register, from the byte that the data port is read at.
  pub read-port :
      (b : PciBus P) (bus dev func reg k size : ℕ)
      → bus < 2 ^ 8
      → dev < 2 ^ 5
      → func < 2 ^ 3
      → reg < 2 ^ 6
      → k < 4
      → (b' : PciBus P) × (write cfg b 0 4 (port_address bus dev func reg)
          ≡ some (b', ok no_action))
        × (read cfg b' (4 + k) size
            ≡ read_entry cfg (get b.segment.devices (Bdf.new bus dev func)) (reg * 4 + k) size)
  unfolding read write
  read-port b bus dev func reg k size hb hd hf hr hk =
      let v = port_address bus dev func reg in
      let q = Bdf.new bus dev func in
      let fits : u32 v ≡ v = omega arith in
      let low : bit_and (4 + k) 3 ≡ k = omega (arith, bit_and_low 2 (4 + k)) in
      let whole : bit_or (to_ecam_addr v) (bit_and (4 + k) 3) ≡ q * 2 ^ 12 + (reg * 4 + k) =
        ap₂ bit_or (to_ecam_addr_lem bus dev func reg hb hd hf hr) low
        ∙ ap (λ x. bit_or x k) {y = (q * 2 ^ 10 + reg) * 2 ^ 2} (omega arith)
        ∙ bit_or-high_low 2 (q * 2 ^ 10 + reg) k (omega arith)
        ∙ omega arith in
      (
        record b { address = u32 v },
        refl,
        data_port (record b { address = u32 v }) k size hk (ground arith)
            ∙ ap
                (λ a. Segment.read cfg b.segment (bit_or (to_ecam_addr a) (bit_and (4 + k) 3)) size)
                fits
            ∙ ap (λ o. Segment.read cfg b.segment o size) whole
            ∙ segment_read b.segment q (reg * 4 + k) size (omega arith) (omega arith),
      )
