-- ===== src/Mem/Mapped/Store.antt =====
-- What `copy_from_slice` leaves in the host memory of mapped.rs.
use alioth.Base.{
  ℕ, zero, suc, ◌+◌, ◌<◌, ◌≤◌, ◌≡◌, ◌⊎◌, inl, inr, refl, ap, ◌∙◌, List, [], ◌∷◌, length, take,
  arith,
}
use alioth.Mem.Mapped.{Host, load, store, put}

pub length-load : (h : Host) (p n : ℕ) → length (load h p n) ≡ n
unfolding load
length-load h p zero = refl
length-load h p (suc n) = ap suc (length-load h (p + 1) n)

pub take_whole : (xs : List ℕ) (n : ℕ) → length xs ≡ n → take n xs ≡ xs
take_whole [] zero e = refl
take_whole [] (suc n) e = refl
take_whole (x ∷ xs) zero e = absurd (ground arith)
take_whole (x ∷ xs) (suc n) e = ap (λ ys. x ∷ ys) (take_whole xs n (omega arith))

-- Bytes that are stored behind an address leave it alone.
store_below : (h : Host) (p : ℕ) (bs : List ℕ) (a : ℕ) → a < p → store h p bs a ≡ h a
unfolding store
store_below h p [] a below = refl
store_below h p (b ∷ bs) a below =
    store_below (put h p b) (p + 1) bs a (omega arith) ∙ (ground arith)

pub load-store : (h : Host) (p : ℕ) (bs : List ℕ) → load (store h p bs) p (length bs) ≡ bs
unfolding load store
load-store h p [] = refl
load-store h p (b ∷ bs) =
    ap (λ a. a ∷ load (store (put h p b) (p + 1) bs) (p + 1) (length bs))
      (store_below (put h p b) (p + 1) bs p (omega arith) ∙ ground arith)
    ∙ ap (λ cs. b ∷ cs) (load-store (put h p b) (p + 1) bs)

later : (q p n : ℕ) → (q < p) ⊎ (p + suc n ≤ q) → (q < p + 1) ⊎ (p + 1 + n ≤ q)
later q p n (inl below) = inl (omega arith)
later q p n (inr above) = inr (omega arith)

-- A byte outside of a range leaves it alone.
pub load-put : (h : Host) (q v p n : ℕ) → (q < p) ⊎ (p + n ≤ q) → load (put h q v) p n ≡ load h p n
unfolding load
load-put h q v p zero out = refl
load-put h q v p (suc n) out =
    let here : put h q v p ≡ h p = ground arith in
    let rest : load (put h q v) (p + 1) n ≡ load h (p + 1) n =
      load-put h q v (p + 1) n (later q p n out) in
    ap (λ a. a ∷ load (put h q v) (p + 1) n) here ∙ ap (λ bs. h p ∷ bs) rest
