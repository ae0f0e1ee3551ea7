-- ===== src/Pci/Segment/Assign/Packed.antt =====
-- The order in which `assign_resources` of segment.rs serves the registers leaves no gaps.
use alioth.Base.{
  ℕ, suc, ◌+◌, ◌-◌, ◌*◌, ◌%◌, ◌^◌, ◌<◌, ◌≤◌, ◌≡◌, refl, true, false, List, [], ◌∷◌, ltb, arith,
  Bool-cases, inl, inr, length, ap, sym, ◌∙◌, subst,
}
use native.Mathlib.Nat.{pow-le-pow_right, mod-eq_of_lt, mul-add-mod_self_right}
use alioth.Base.Bits.Pow.{multiple_down}
use alioth.Base.Word.{u64}
use alioth.Utils.{align_up}
use alioth.Utils.Halves.{align_up_lem}
use alioth.Pci.Bdf.{Bdf}
use alioth.Pci.Segment.{Entry, PciConfig}
use alioth.Pci.Segment.Assign.{Bar, bar_size, before, insert_bar, sort_bars, place_bars}
use alioth.Pci.Segment.Assign.Plan.{plan, AtMost, place_all, place_bars-plan}

-- Sizes that do not grow, from `2 ^ k` on.
abbrev Descending : ℕ → List Bar → Type 0
Descending k [] = Unit
Descending k (b ∷ bs) = (b.shift ≤ k) × Descending b.shift bs

abbrev pub sum_sizes : List Bar → ℕ
sum_sizes [] = 0
sum_sizes (b ∷ bs) = bar_size b + sum_sizes bs

before-shift : (b c : Bar) → before b c ≡ true → c.shift ≤ b.shift
unfolding before
before-shift b c h = ground arith

not_before-shift : (b c : Bar) → before b c ≡ false → b.shift ≤ c.shift
unfolding before
not_before-shift b c h = ground arith

insert_bar-Descending :
    (k : ℕ) (b : Bar) (cs : List Bar)
    → b.shift ≤ k
    → Descending k cs
    → Descending k (insert_bar b cs)
unfolding insert_bar
insert_bar-Descending k b [] h d = (h, tt)
insert_bar-Descending k b (c ∷ cs) h d = elim (Bool-cases (before b c)) [
  | inl y ↦ rw (y, insert_bar) (h, (before-shift b c y, d.1))
  | inr n ↦
      rw (n, insert_bar) (d.0, insert_bar-Descending c.shift b cs (not_before-shift b c n) d.1)
]

sort_bars-Descending : (k : ℕ) (bars : List Bar) → AtMost k bars → Descending k (sort_bars bars)
unfolding sort_bars
sort_bars-Descending k [] s = tt
sort_bars-Descending k (b ∷ bs) s =
    insert_bar-Descending k b (sort_bars bs) s.0 (sort_bars-Descending k bs s.1)

insert_bar-sum :
    (b : Bar) (cs : List Bar)
    → (sum_sizes (insert_bar b cs) ≡ bar_size b + sum_sizes cs)
      × (length (insert_bar b cs) ≡ suc (length cs))
unfolding insert_bar
insert_bar-sum b [] = (refl, refl)
insert_bar-sum b (c ∷ cs) = elim (Bool-cases (before b c)) [
  | inl y ↦ rw (y, insert_bar) (refl, refl)
  | inr n ↦
      rw (n, insert_bar) (omega (arith, (insert_bar-sum b cs).0), ap suc (insert_bar-sum b cs).1)
]

sort_bars-sum :
    (bars : List Bar)
    → (sum_sizes (sort_bars bars) ≡ sum_sizes bars) × (length (sort_bars bars) ≡ length bars)
unfolding sort_bars
sort_bars-sum [] = (refl, refl)
sort_bars-sum (b ∷ bs) =
    let (s, l) = insert_bar-sum b (sort_bars bs) in
    let (s', l') = sort_bars-sum bs in (omega arith, l ∙ ap suc l')

-- The registers one after another.
abbrev pub pack : ℕ → List Bar → List (Bar × ℕ)
pack start [] = []
pack start (b ∷ bs) = (b, start) ∷ pack (start + bar_size b) bs

-- A multiple of the alignment stays as it is.
align_whole : (q j : ℕ) → j ≤ 64 → q * 2 ^ j + 2 ^ j ≤ 2 ^ 64 → align_up (q * 2 ^ j) j ≡ q * 2 ^ j
align_whole q j h fits =
    let (whole, above, close) = align_up_lem (q * 2 ^ j) j h fits in
    let d = align_up (q * 2 ^ j) j - q * 2 ^ j in
    let d_mod : d % 2 ^ j ≡ 0 =
      sym (mul-add-mod_self_right q (2 ^ j) d) ∙ ap (λ x. x % 2 ^ j) (omega arith) ∙ whole in
    omega (arith, mod-eq_of_lt {n = d} {m = 2 ^ j} (omega arith))

plan-pack :
    (q k start end : ℕ) (bars : List Bar)
    → k ≤ 62
    → start ≡ q * 2 ^ k
    → Descending k bars
    → start + sum_sizes bars ≤ end
    → end < 2 ^ 63
    → plan start end bars ≡ pack start bars
unfolding plan
plan-pack q k start end [] h e d f w = refl
plan-pack q k start end (b ∷ bs) h e d f w =
    let p = q * 2 ^ (k - b.shift) in
    let here : start ≡ p * 2 ^ b.shift = e ∙ multiple_down q k b.shift d.0 in
    let small : bar_size b ≤ 2 ^ 62 =
      pow-le-pow_right {n = 2} (omega arith) {i = b.shift} {j = 62} (omega arith) in
    let stays : align_up start b.shift ≡ start =
      subst (λ x. align_up x b.shift ≡ x) (sym here)
        (align_whole p b.shift (omega arith) (omega arith)) in
    let next : u64 (start + bar_size b) ≡ start + bar_size b = omega arith in
    let fits : ltb end (u64 (start + bar_size b)) ≡ false = ground arith in
    rw (stays, fits, plan)
      (ap (λ ps. (b, start) ∷ ps)
        (subst (λ x. plan x end bs ≡ pack (start + bar_size b) bs) (sym next)
          (plan-pack (p + 1) b.shift (start + bar_size b) end bs (omega arith) (omega arith) d.1
            (omega arith) w)))

length-pack : (start : ℕ) (bars : List Bar) → length (pack start bars) ≡ length bars
length-pack start [] = refl
length-pack start (b ∷ bs) = ap suc (length-pack (start + bar_size b) bs)

module _ {P C : Type 0} (cfg : PciConfig P C) where
  -- Where a window below 2^63 begins at a multiple of a power of two that no size exceeds, and is as
  -- long as the sum of the sizes, every register of the sorted list gets its place, one after the
  -- other.
  pub place_bars-pack :
      (devices : List (Bdf × Entry P)) (q k start end : ℕ) (bars : List Bar)
      → k ≤ 62
      → AtMost k bars
      → start ≡ q * 2 ^ k
      → start + sum_sizes bars ≤ end
      → end < 2 ^ 63
      → (place_bars cfg devices start end (sort_bars bars)
          ≡ place_all cfg devices (pack start (sort_bars bars)))
        × (length (pack start (sort_bars bars)) ≡ length bars)
  place_bars-pack devices q k start end bars h a e f w =
      let (sum, len) = sort_bars-sum bars in
      let packed =
        plan-pack q k start end (sort_bars bars) h e (sort_bars-Descending k bars a) (omega arith)
          w in
      (
        place_bars-plan cfg devices start end (sort_bars bars) ∙ ap (place_all cfg devices) packed,
        length-pack start (sort_bars bars) ∙ len,
      )
