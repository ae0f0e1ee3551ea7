-- ===== src/Pci/Msix/Tests.antt =====
-- The theorems on the MSI-X table at a table of two entries, none of them bound.
use alioth.Base.{ℕ, ◌<◌, ◌≡◌, refl, Bool, false, ◌&&◌, [], ◌∷◌, ok, if◌then◌else◌, ◌==◌, arith}
use alioth.Pci.Msix.{MsixTableMmio, IrqFd, entry, default_entry, read, write_val}
use alioth.Pci.Msix.Entry.{at, write_val-read}

-- A descriptor that takes every call, and keeps its data word.
abbrev plain_fd : IrqFd ℕ
plain_fd = record {
  get_addr_lo = λ f. 0;
  get_addr_hi = λ f. 0;
  get_data = λ f. f;
  get_masked = λ f. false;
  set_addr_lo = λ f v. ok f;
  set_addr_hi = λ f v. ok f;
  set_data = λ f v. ok v;
  set_masked = λ f v. ok (f, false);
}

abbrev table : MsixTableMmio ℕ
table = record { entries = entry default_entry ∷ entry default_entry ∷ [] }

write_val-read_example :
    (t' : MsixTableMmio ℕ) × (changed : Bool) × (write_val plain_fd table (at 1 3) 4 6
      ≡ ok (t', changed))
    × ((j field' : ℕ)
        → field' < 4
        → read plain_fd t' (at j field') 4
          ≡ (if j == 1 && field' == 3 then 0 else read plain_fd table (at j field') 4))
write_val-read_example = write_val-read plain_fd table 1 3 6 default_entry refl (omega arith)
