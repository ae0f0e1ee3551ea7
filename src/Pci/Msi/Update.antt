-- ===== src/Pci/Msi/Update.antt =====
-- What `update_msi` of cap.rs leaves in the interrupt file descriptors.
use alioth.Base.{
  ℕ, suc, ◌/◌, ◌^◌, ◌≡◌, refl, ap, sym, ◌∙◌, inl, inr, Bool, true, false, not, Bool-cases, List, [],
  ◌∷◌, Result, ok, err, Result-cases, bit_or, arith,
}
use alioth.Base.Word.{u32}
use alioth.Mem.Error.{Error}
use alioth.Mem.Call.{◌>>◌, resume-ok}
use alioth.Pci.Msix.{IrqFd}
use alioth.Pci.Msi.{
  MsiCap, msi_addr, msi_data, active, act, settle, set_masked, program, if_active, update_one,
  after_one, update_from,
}

-- A setter that succeeds sets its own word, and leaves the other ones.
pub record Laws {F : Type 0} (fd : IrqFd F) : Type 0 where
  pub lo :
      (f f' : F) (v : ℕ)
      → fd.set_addr_lo f v ≡ ok f'
      → (fd.get_addr_lo f' ≡ v)
        × (fd.get_addr_hi f' ≡ fd.get_addr_hi f)
        × (fd.get_data f' ≡ fd.get_data f)
        × (fd.get_masked f' ≡ fd.get_masked f)
  pub hi :
      (f f' : F) (v : ℕ)
      → fd.set_addr_hi f v ≡ ok f'
      → (fd.get_addr_hi f' ≡ v)
        × (fd.get_addr_lo f' ≡ fd.get_addr_lo f)
        × (fd.get_data f' ≡ fd.get_data f)
        × (fd.get_masked f' ≡ fd.get_masked f)
  pub value :
      (f f' : F) (v : ℕ)
      → fd.set_data f v ≡ ok f'
      → (fd.get_data f' ≡ v)
        × (fd.get_addr_lo f' ≡ fd.get_addr_lo f)
        × (fd.get_addr_hi f' ≡ fd.get_addr_hi f)
        × (fd.get_masked f' ≡ fd.get_masked f)
  pub mask :
      (f f' : F) (b changed : Bool)
      → fd.set_masked f b ≡ ok (f', changed)
      → (fd.get_masked f' ≡ b)
        × (fd.get_addr_lo f' ≡ fd.get_addr_lo f)
        × (fd.get_addr_hi f' ≡ fd.get_addr_hi f)
        × (fd.get_data f' ≡ fd.get_data f)

module _ {F : Type 0} (fd : IrqFd F) where
  -- The descriptor of a vector does what the registers say: it is masked exactly if the vector is not
  -- active, and holds the message otherwise.
  pub record Follows (c : MsiCap) (index : ℕ) (f : F) : Type 0 where
    pub masked : fd.get_masked f ≡ not (active c index)
    pub programmed :
        active c index ≡ true
        → (fd.get_addr_hi f ≡ u32 (msi_addr c / 2 ^ 32))
          × (fd.get_addr_lo f ≡ u32 (msi_addr c))
          × (fd.get_data f ≡ bit_or (msi_data c) index)

  abbrev pub FollowsFrom : MsiCap → (index : ℕ) → List F → Type 0
  FollowsFrom c index [] = Unit {0}
  FollowsFrom c index (f ∷ fs) = Follows c index f × FollowsFrom c (suc index) fs

module _ {F : Type 0} (fd : IrqFd F) where
  act-ok : (g : F → Result Error F) (f f' : F) → act fd g f ≡ (ok tt, f') → g f ≡ ok f'
  act-ok g f f' e = settled (g f) e
    where
      settled : (r : Result Error F) → settle fd f r ≡ (ok tt, f') → r ≡ ok f'
      settled (ok f₁) e = cc
      settled (err x) e = absurd (ground arith)

  set_masked-ok :
      (b : Bool) (f f' : F)
      → set_masked fd b f ≡ ok f'
      → (changed : Bool) × (fd.set_masked f b ≡ ok (f', changed))
  set_masked-ok b f f' e = elim (Result-cases (fd.set_masked f b)) [
    | inl (x, q) ↦ absurd (ground arith)
    | inr ((f₁, changed), q) ↦ (changed, q ∙ ap (λ x. ok (x, changed)) (ground arith))
  ]

  program-Follows :
      Laws fd
      → (c : MsiCap) (index : ℕ) (f f' : F) → active c index ≡ true
      → program fd c index f ≡ (ok tt, f')
      → Follows fd c index f'
  program-Follows law c index f f' on e =
      let set_hi = act fd (λ f. fd.set_addr_hi f (u32 (msi_addr c / 2 ^ 32))) in
      let set_lo = act fd (λ f. fd.set_addr_lo f (u32 (msi_addr c))) in
      let set_data = act fd (λ f. fd.set_data f (bit_or (msi_data c) index)) in
      let unmask = act fd (set_masked fd false) in
      let (u₃, f₃, e₃, last) = resume-ok (λ _. unmask) ((set_hi >> set_lo >> set_data) f) tt f' e in
      let (u₂, f₂, e₂, third) = resume-ok (λ _. set_data) ((set_hi >> set_lo) f) u₃ f₃ e₃ in
      let (u₁, f₁, e₁, second) = resume-ok (λ _. set_lo) (set_hi f) u₂ f₂ e₂ in
      let (hi, hi_lo, hi_data, hi_masked) =
        law.hi f f₁ (u32 (msi_addr c / 2 ^ 32))
          (act-ok (λ f. fd.set_addr_hi f (u32 (msi_addr c / 2 ^ 32))) f f₁ e₁) in
      let (lo, lo_hi, lo_data, lo_masked) =
        law.lo f₁ f₂ (u32 (msi_addr c))
          (act-ok (λ f. fd.set_addr_lo f (u32 (msi_addr c))) f₁ f₂ second) in
      let (val, val_lo, val_hi, val_masked) =
        law.value f₂ f₃ (bit_or (msi_data c) index)
          (act-ok (λ f. fd.set_data f (bit_or (msi_data c) index)) f₂ f₃ third) in
      let (changed, cleared) =
        set_masked-ok false f₃ f' (act-ok (set_masked fd false) f₃ f' last) in
      let (mask, mask_lo, mask_hi, mask_data) = law.mask f₃ f' false changed cleared in
      record {
        masked = mask ∙ ap not (sym on);
        programmed = λ _. (mask_hi ∙ val_hi ∙ lo_hi ∙ hi, mask_lo ∙ val_lo ∙ lo, mask_data ∙ val);
      }

  update_one-Follows :
      Laws fd
      → (c : MsiCap) (index : ℕ) (f f' : F) → update_one fd c index f ≡ (ok tt, f')
      → Follows fd c index f'
  unfolding update_one
  update_one-Follows law c index f f' e =
      let (u, f₁, e₁, then_) =
        resume-ok (λ _. if_active fd (active c index) c index) (act fd (set_masked fd true) f) tt f'
          e in
      let (changed, set_) = set_masked-ok true f f₁ (act-ok (set_masked fd true) f f₁ e₁) in
      let (mask, mask_lo, mask_hi, mask_data) = law.mask f f₁ true changed set_ in
      elim (Bool-cases (active c index)) [
        | inl on ↦
            program-Follows law c index f₁ f' on
              (ap (λ b. if_active fd b c index f₁) (sym on) ∙ then_)
        | inr off ↦
            let same : f₁ ≡ f' =
              ap (λ r. r.1) (ap (λ b. if_active fd b c index f₁) (sym off) ∙ then_) in
            record {
              masked = ap fd.get_masked (sym same) ∙ mask ∙ ap not (sym off);
              programmed = λ on. absurd (ground arith);
            }
      ]

  after_one-Follows :
      (c : MsiCap) (index : ℕ) (r : Result Error (Unit {0}) × F) (fs : List F)
      (rest : Result Error (Unit {0}) × List F)
      → ((f' : F) → r ≡ (ok tt, f') → Follows fd c index f')
      → (rest.0 ≡ ok tt → FollowsFrom fd c (suc index) rest.1)
      → (after_one fd r fs rest).0 ≡ ok tt
      → FollowsFrom fd c index (after_one fd r fs rest).1
  after_one-Follows c index (ok u, f') fs rest one more e = (one f' refl, more e)
  after_one-Follows c index (err x, f') fs rest one more e = absurd (ground arith)

  pub update_from-Follows :
      Laws fd
      → (c : MsiCap) (index : ℕ) (fs : List F) → (update_from fd c index fs).0 ≡ ok tt
      → FollowsFrom fd c index (update_from fd c index fs).1
  unfolding update_from
  update_from-Follows law c index [] e = tt
  update_from-Follows law c index (f ∷ fs) e =
      after_one-Follows c index (update_one fd c index f) fs (update_from fd c (suc index) fs)
        (λ f' q. update_one-Follows law c index f f' q) (update_from-Follows law c (suc index) fs) e
