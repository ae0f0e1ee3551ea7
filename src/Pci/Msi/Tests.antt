-- ===== src/Pci/Msi/Tests.antt =====
-- The theorem on the MSI capability at a device with two vectors, of which the driver masks one.
use alioth.Base.{ℕ, ◌≡◌, refl, Bool, true, false, [], ◌∷◌, ok, arith}
use alioth.Pci.Msix.{IrqFd}
use alioth.Pci.Msi.{MsiCap, from_bits, active, write}
use alioth.Pci.Msi.Update.{Laws, FollowsFrom}
use alioth.Pci.Msi.Synced.{write-FollowsFrom}

record Fd : Type 0 where
  lo : ℕ
  hi : ℕ
  value : ℕ
  mask : Bool

abbrev plain : IrqFd Fd
plain = record {
  get_addr_lo = λ f. f.lo;
  get_addr_hi = λ f. f.hi;
  get_data = λ f. f.value;
  get_masked = λ f. f.mask;
  set_addr_lo = λ f v. ok (record f { lo = v });
  set_addr_hi = λ f v. ok (record f { hi = v });
  set_data = λ f v. ok (record f { value = v });
  set_masked = λ f b. ok (record f { mask = b }, true);
}

plain-Laws : Laws plain
plain-Laws = record {
  lo = λ f f' v e. (ground arith, ground arith, ground arith, ground arith);
  hi = λ f f' v e. (ground arith, ground arith, ground arith, ground arith);
  value = λ f f' v e. (ground arith, ground arith, ground arith, ground arith);
  mask = λ f f' b changed e. (ground arith, ground arith, ground arith, ground arith);
}

-- Two vectors, 64-bit addresses and masks; MSI is off.
abbrev cap : MsiCap
cap = record { next = 0; control = from_bits 0x192; body = 0xfee00000 ∷ 1 ∷ 0x40 ∷ 2 ∷ [] }

abbrev idle : Fd
idle = record { lo = 0; hi = 0; value = 0; mask = true }

idle-FollowsFrom : FollowsFrom plain cap 0 (idle ∷ idle ∷ [])
unfolding active from_bits
idle-FollowsFrom = (
  record { masked = refl; programmed = λ e. absurd (ground arith) },
  (record { masked = refl; programmed = λ e. absurd (ground arith) }, tt),
)

-- MSI is turned on for both vectors.
on_ok : (write plain cap (idle ∷ idle ∷ []) 2 2 0x193).2 ≡ ok tt
unfolding write
on_ok = refl

first_fires :
    (write plain cap (idle ∷ idle ∷ []) 2 2 0x193).1
    ≡ record { lo = 0xfee00000; hi = 1; value = 0x40; mask = false } ∷ idle ∷ []
unfolding write
first_fires = refl

write-FollowsFrom_example :
    FollowsFrom plain
      (write plain cap (idle ∷ idle ∷ []) 2 2 0x193).0
      0
      (write plain cap (idle ∷ idle ∷ []) 2 2 0x193).1
write-FollowsFrom_example =
    write-FollowsFrom plain plain-Laws cap (idle ∷ idle ∷ []) 2 2 0x193 idle-FollowsFrom on_ok
