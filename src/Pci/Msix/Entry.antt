-- ===== src/Pci/Msix/Entry.antt =====
-- What the guest reads of the MSI-X table after it wrote to it.
use alioth.Base.{
  ℕ, zero, suc, ◌+◌, ◌*◌, ◌/◌, ◌%◌, ◌^◌, ◌<◌, ◌≡◌, ◌≢◌, inl, inr, refl, sym, ap, ◌∙◌, Bool, true,
  false, ◌&&◌, none, some, ok, ◌>>=◌, ◌==◌, if◌then◌else◌, get_elem?, get_elem?-set_self,
  get_elem?-set_ne, get_elem?-lt, set, bit_and, Bool-cases, Option-cases, arith,
}
use alioth.Base.Word.{u32}
use alioth.Base.Bits.{bit_and_low}
use alioth.Pci.Msix.{
  MsixTableEntry, MsixTableMmio, MsixTableMmioEntry, IrqFd, entry, irq_fd, masked, with_masked,
  bool_ne, get_field, set_field, read, write_val,
}

-- A word of the table by entry and field.
abbrev pub at : ℕ → ℕ → ℕ
at index field = index * 16 + field * 4

-- No entry is bound to an interrupt file descriptor.
abbrev pub IsPlain : {F : Type 0} → MsixTableMmioEntry F → Type 0
IsPlain (entry e) = Unit
IsPlain (irq_fd f) = ⊥

module _ {F : Type 0} (fd : IrqFd F) where
  -- One entry: the word that is read back at each field.
  set_get :
      (field val : ℕ) (e : MsixTableEntry)
      → field < 4
      → val < 2 ^ 32
      → (e' : MsixTableMmioEntry F) × (changed : Bool) × (set_field fd (field * 4) val (entry e)
          ≡ ok (e', changed))
        × ((field' : ℕ)
            → field' < 4
            → get_field fd (field' * 4) e' ≡ (
                if field' == field
                then (if field == 3 then val % 2 else val)
                else get_field fd (field' * 4) (entry e)))
  unfolding set_field get_field
  set_get zero val e h lt =
      (entry (record e { addr_lo = val }), false, refl, λ field' h'. ground arith)
  set_get (suc zero) val e h lt =
      (entry (record e { addr_hi = val }), false, refl, λ field' h'. ground arith)
  set_get (suc (suc zero)) val e h lt =
      (entry (record e { msi_data = val }), false, refl, λ field' h'. ground arith)
  set_get (suc (suc (suc n))) val e h lt = (
    entry (record e { control = with_masked e.control (masked val) }),
    bool_ne (masked e.control) (masked val),
    ground arith,
    λ field' h'. ground arith,
  )

  aligned : (index field : ℕ) → (bit_and (at index field) 3 == 0) ≡ true
  aligned index field = ground (arith, bit_and_low 2 (at index field))

  read-at :
      (t : MsixTableMmio F) (index field : ℕ)
      → field < 4
      → read fd t (at index field) 4
        ≡ elim (get_elem? t.entries index) [ none ↦ 0 | some e ↦ get_field fd (field * 4) e ]
  unfolding read
  read-at t index field h =
      let a : at index field / 16 ≡ index = omega arith in
      let b : at index field % 16 ≡ field * 4 = omega arith in
      elim (Option-cases (get_elem? t.entries index)) [
        | inl out ↦ rw (aligned index field) (rw a (rw out refl))
        | inr (e, is) ↦ rw (aligned index field) (rw a (rw is (rw b refl)))
      ]

  read_after :
      (t : MsixTableMmio F) (index field val j field' : ℕ) (e : MsixTableEntry)
      (e' : MsixTableMmioEntry F)
      → get_elem? t.entries index ≡ some (entry e)
      → field' < 4
      → (get_field fd (field' * 4) e' ≡ (
          if field' == field
          then (if field == 3 then val % 2 else val)
          else get_field fd (field' * 4) (entry e)))
      → read fd (record { entries = set t.entries index e' }) (at j field') 4 ≡ (
          if j == index && field' == field
          then (if field == 3 then val % 2 else val)
          else read fd t (at j field') 4)
  read_after t index field val j field' e e' is h g =
      let old = read-at t j field' h in
      let new = read-at (record { entries = set t.entries index e' }) j field' h in
      elim (Bool-cases (j == index)) [
        | inl same ↦
            let here : j ≡ index = ground arith in
            let put : get_elem? (set t.entries index e') j ≡ some e' =
              rw here (get_elem?-set_self t.entries index e' (get_elem?-lt t.entries index is)) in
            let was : get_elem? t.entries j ≡ some (entry e) = rw here is in
            rw (new ∙ ap (λ o. elim o [ none ↦ 0 | some x ↦ get_field fd (field' * 4) x ]) put) (
              rw (old ∙ ap (λ o. elim o [ none ↦ 0 | some x ↦ get_field fd (field' * 4) x ]) was)
                (rw same g))
        | inr other ↦
            let apart : index ≢ j = ground arith in
            rw other (
              new
              ∙ ap (λ o. elim o [ none ↦ 0 | some x ↦ get_field fd (field' * 4) x ])
                  (get_elem?-set_ne t.entries {i = index} {j = j} e' apart)
              ∙ sym old)
      ]

  write_at :
      (t : MsixTableMmio F) (index field val : ℕ) (e e' : MsixTableMmioEntry F) (changed : Bool)
      → get_elem? t.entries index ≡ some e
      → field < 4
      → set_field fd (field * 4) (u32 val) e ≡ ok (e', changed)
      → write_val fd t (at index field) 4 val
        ≡ ok (record { entries = set t.entries index e' }, changed)
  unfolding write_val
  write_at t index field val e e' changed is h put =
      let a : at index field / 16 ≡ index = omega arith in
      let b : at index field % 16 ≡ field * 4 = omega arith in
      rw (aligned index field) (
        rw a (
          rw is (
            ap
              (λ n. set_field fd n (u32 val) e >>= λ p.
                ok (record { entries = set t.entries (at index field / 16) p.0 }, p.1))
              b
            ∙ ap
                (λ r.
                  r >>= λ p. ok (record { entries = set t.entries (at index field / 16) p.0 }, p.1))
                put
            ∙ ap (λ n. ok (record { entries = set t.entries n e' }, changed)) a)))

  -- A write to a field of an entry that is not bound succeeds; the guest then reads there what it
  -- wrote (of the control word the mask bit alone), and at every other field what it read before.
  pub write_val-read :
      (t : MsixTableMmio F) (index field val : ℕ) (e : MsixTableEntry)
      → get_elem? t.entries index ≡ some (entry e)
      → field < 4
      → (t' : MsixTableMmio F) × (changed : Bool) × (write_val fd t (at index field) 4 val
          ≡ ok (t', changed))
        × ((j field' : ℕ)
            → field' < 4
            → read fd t' (at j field') 4 ≡ (
                if j == index && field' == field
                then (if field == 3 then u32 val % 2 else u32 val)
                else read fd t (at j field') 4))
  unfolding write_val
  write_val-read t index field val e is h =
      let (e', changed, put, get) = set_get field (u32 val) e h (omega arith) in
      (
        record { entries = set t.entries index e' },
        changed,
        write_at t index field val (entry e) e' changed is h put,
        λ j field' h'. read_after t index field (u32 val) j field' e e' is h' (get field' h'),
      )
