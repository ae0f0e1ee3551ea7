-- ===== src/Device/IoApic/Entry.antt =====
-- How the driver sets a redirection entry of ioapic.rs through the select register and the window.
use alioth.Base.{
  ℕ, ◌+◌, ◌-◌, ◌*◌, ◌/◌, ◌%◌, ◌^◌, ◌<◌, ◌≡◌, ◌≢◌, sym, ap, ◌∙◌, true, false, some, ◌==◌,
  if◌then◌else◌, get_elem?, get_elem?-set_self, get_elem?-set_ne, get_elem?-lt, set, arith,
}
use alioth.Base.Word.{u8, u32}
use alioth.Utils.{set_low32, set_high32}
use alioth.Utils.Halves.{set_low32_lem, set_high32_lem}
use alioth.Device.IoApic.{IoApicRegs, read, read_reg, write, write_reg, set_half, in_table}

-- One half of the entry of a pin: 0 for the low one, 1 for the high one.
abbrev pub select_half : IoApicRegs → ℕ → ℕ → IoApicRegs
select_half r pin half = write r 0 4 (16 + 2 * pin + half)

abbrev pub program : IoApicRegs → ℕ → ℕ → ℕ → IoApicRegs
program r pin half val = write (select_half r pin half) 16 4 val

abbrev with_entry : IoApicRegs → ℕ → ℕ → ℕ → IoApicRegs
with_entry r pin half e = record r { select = 16 + 2 * pin + half; redirtbl = set r.redirtbl pin e }

set_low_lem :
    (pin e v : ℕ)
    → e < 2 ^ 64
    → v < 2 ^ 32
    → set_half (16 + 2 * pin + 0) e v ≡ e / 2 ^ 32 * 2 ^ 32 + v
unfolding set_half set_low32
set_low_lem pin e v h l = ground (arith, set_low32_lem e v h l)

set_high_lem :
    (pin e v : ℕ) → v < 2 ^ 32 → set_half (16 + 2 * pin + 1) e v ≡ v * 2 ^ 32 + e % 2 ^ 32
unfolding set_half set_high32
set_high_lem pin e v l = ground (arith, set_high32_lem e v l)

-- The select register names the half of a table entry.
module _ (pin half : ℕ) (p : pin < 24) (h : half < 2) where
  fits : u8 (16 + 2 * pin + half) ≡ 16 + 2 * pin + half
  fits = omega arith

  not_id : (16 + 2 * pin + half == 0) ≡ false
  not_id = ground arith

  not_version : (16 + 2 * pin + half == 1) ≡ false
  not_version = ground arith

  not_arb : (16 + 2 * pin + half == 2) ≡ false
  not_arb = ground arith

  in_range : in_table (16 + 2 * pin + half) ≡ true
  in_range = ground arith

  index : (16 + 2 * pin + half - 0x10) / 2 ≡ pin
  index = omega arith

  program_lem :
      (r : IoApicRegs) (e val : ℕ)
      → val < 2 ^ 32
      → get_elem? r.redirtbl pin ≡ some e
      → program r pin half val ≡ with_entry r pin half (set_half (16 + 2 * pin + half) e val)
  unfolding write write_reg
  program_lem r e val v at =
      let word : u32 val ≡ val = omega arith in
      ap (λ x. write_reg (record r { select = x }) (u32 val)) fits
      ∙ ap (λ x. write_reg (record r { select = 16 + 2 * pin + half }) x) word
      ∙ rw not_id (
          rw not_version (
            rw not_arb (
              rw in_range (
                rw index (
                  rw at (
                    ap
                      (λ x. record r {
                        select = 16 + 2 * pin + half;
                        redirtbl = set r.redirtbl x (set_half (16 + 2 * pin + half) e val);
                      })
                      index))))))

  read_half :
      (r : IoApicRegs) (e : ℕ)
      → get_elem? r.redirtbl pin ≡ some e
      → read (select_half r pin half) 16 4 ≡ (if half == 0 then e % 2 ^ 32 else e / 2 ^ 32 % 2 ^ 32)
  unfolding write read read_reg
  read_half r e at =
      rw fits
        (rw not_id (rw not_arb (rw not_version (rw in_range (rw index (rw at (ground arith)))))))

-- Writing both halves of a pin's entry sets that entry and no other, and the two halves are read
-- back as they were written.
program-entry :
    (r : IoApicRegs) (pin e lo hi : ℕ)
    → pin < 24
    → get_elem? r.redirtbl pin ≡ some e
    → e < 2 ^ 64
    → lo < 2 ^ 32
    → hi < 2 ^ 32
    → (r' : IoApicRegs) × (r' ≡ program (program r pin 0 lo) pin 1 hi)
      × (get_elem? r'.redirtbl pin ≡ some (hi * 2 ^ 32 + lo))
      × ((j : ℕ) → pin ≢ j → get_elem? r'.redirtbl j ≡ get_elem? r.redirtbl j)
      × (read (select_half r' pin 0) 16 4 ≡ lo)
      × (read (select_half r' pin 1) 16 4 ≡ hi)
program-entry r pin e lo hi p at b l k =
    let e1 = set_half (16 + 2 * pin + 0) e lo in
    let e2 = set_half (16 + 2 * pin + 1) e1 hi in
    let r1 = with_entry r pin 0 e1 in
    let r2 = with_entry r1 pin 1 e2 in
    let in1 : get_elem? r1.redirtbl pin ≡ some e1 =
      get_elem?-set_self r.redirtbl pin e1 (get_elem?-lt r.redirtbl pin at) in
    let whole : e2 ≡ hi * 2 ^ 32 + lo =
      omega (arith, set_high_lem pin e1 hi k, set_low_lem pin e lo b l) in
    let in2 : get_elem? r2.redirtbl pin ≡ some (hi * 2 ^ 32 + lo) =
      get_elem?-set_self r1.redirtbl pin e2 (get_elem?-lt r1.redirtbl pin in1)
      ∙ ap (λ x. some x) whole in
    let first : program r pin 0 lo ≡ r1 = program_lem pin 0 p (omega arith) r e lo l at in
    let both : program (program r pin 0 lo) pin 1 hi ≡ r2 =
      ap (λ x. program x pin 1 hi) first ∙ program_lem pin 1 p (omega arith) r1 e1 hi k in1 in
    (
      r2,
      sym both,
      in2,
      λ j apart.
          get_elem?-set_ne r1.redirtbl {i = pin} {j = j} e2 apart
          ∙ get_elem?-set_ne r.redirtbl {i = pin} {j = j} e1 apart,
      read_half pin 0 p (omega arith) r2 (hi * 2 ^ 32 + lo) in2 ∙ omega arith,
      read_half pin 1 p (omega arith) r2 (hi * 2 ^ 32 + lo) in2 ∙ omega arith,
    )
