-- ===== src/Pci/Segment/Assign/Placed.antt =====
-- What a header holds after `assign_resources` of segment.rs wrote an address to one of its base
-- address registers.
use alioth.Base.{
  ℕ, zero, suc, ◌+◌, ◌-◌, ◌*◌, ◌/◌, ◌%◌, ◌^◌, ◌<◌, ◌≤◌, ◌≡◌, ◌≢◌, inl, inr, refl, sym, subst, ap,
  ◌∙◌, min, Bool, true, false, List, [], ◌∷◌, Option, none, some, ltb, ◌==◌, if◌then◌else◌, get_or,
  get_elem?, set, Bool-cases, get_elem?-set_ne, arith, leb, ==_iff, ◌&&◌,
}
use alioth.Base.Word.{u32}
use alioth.Utils.{mask_bits}
use alioth.Pci.Bdf.{Bdf}
use alioth.Pci.Config.{HeaderData, set_bar, bar_at}
use alioth.Pci.Config.Sizing.{mask_bits_high}
use alioth.Pci.Segment.Assign.{Bar}

-- The value of a register, and which of its bits are those of an address.
abbrev pub value_of : HeaderData → ℕ → Option ℕ
value_of d i = get_elem? d.header.bars i

abbrev pub mask_of : HeaderData → ℕ → ℕ
mask_of d i = get_or d.bar_masks i 0

-- A value that takes its bits from `2 ^ k` on from an address.
abbrev pub with_high : (k addr : ℕ) → Option ℕ → Option ℕ
with_high k addr none = none
with_high k addr (some v) = some (addr / 2 ^ k * 2 ^ k + v % 2 ^ k)

-- What the write of an address `a` to a register leaves in the register `i` of the same device, which
-- holds `v`: the low half goes to the register, the high half of an address from 2^32 on to the next.
abbrev pub header_written : Bar → (a i : ℕ) → Option ℕ → Option ℕ
header_written b a i v =
    if i == b.index
    then with_high (min b.shift 32) (a % 2 ^ 32) v
    else if leb (2 ^ 32) a && i == b.index + 1
    then with_high (b.shift - 32) (a / 2 ^ 32) v
    else v

-- What the write of an address leaves in the registers of all devices.
abbrev pub written_one : Bar → ℕ → Bdf → ℕ → Option ℕ → Option ℕ
written_one b a c i v = if b.bdf == c then header_written b a i v else v

get_elem?-set-with_high :
    (xs : List ℕ) (i k val x : ℕ)
    → x ≡ val / 2 ^ k * 2 ^ k + get_or xs i 0 % 2 ^ k
    → get_elem? (set xs i x) i ≡ with_high k val (get_elem? xs i)
get_elem?-set-with_high [] i k val x e = refl
get_elem?-set-with_high (y ∷ ys) zero k val x e = ap some e
get_elem?-set-with_high (y ∷ ys) (suc i) k val x e = get_elem?-set-with_high ys i k val x e

-- One write of a register, and what it leaves in another one.
set_bar-value :
    (d : HeaderData) (j k val i : ℕ)
    → k ≤ 32
    → mask_of d j ≡ 2 ^ 32 - 2 ^ k
    → val < 2 ^ 32
    → value_of (set_bar d j val) i
      ≡ (if i == j then with_high k val (value_of d i) else value_of d i)
unfolding set_bar
set_bar-value d j k val i small m v = elim (Bool-cases (i == j)) [
  | inl y ↦
      let e : i ≡ j = (==_iff i j).0 y in
      rw y (
        subst
          (λ t.
            get_elem? (set d.header.bars j (new d j val)) t
            ≡ with_high k val (get_elem? d.header.bars t))
          (sym e)
          (get_elem?-set-with_high d.header.bars j k val (new d j val)
            (ap (mask_bits 32 (bar_at d j) val) m ∙ mask_bits_high k (bar_at d j) val small v)))
  | inr n ↦ rw n (get_elem?-set_ne d.header.bars (new d j val) (differ i j n))
]
  where
    new : HeaderData → ℕ → ℕ → ℕ
    new d j val = mask_bits 32 (bar_at d j) val (mask_of d j)

    differ : (i j : ℕ) → (i == j) ≡ false → j ≢ i
    differ i j n e = ground arith

set_bar-mask : (d : HeaderData) (i j val : ℕ) → mask_of (set_bar d i val) j ≡ mask_of d j
unfolding set_bar
set_bar-mask d i j val = refl

-- The header with the address of a register.
abbrev pub placed : HeaderData → Bar → ℕ → HeaderData
placed d b a =
    let low = set_bar d b.index (u32 a) in
    if ltb (2 ^ 32 - 1) a then set_bar low (b.index + 1) (u32 (a / 2 ^ 32)) else low

-- The masks of a register of `2 ^ b.shift` bytes and, where it is written, of the one after it.
abbrev pub Sized : (mask : ℕ → ℕ) → Bar → (wide : Bool) → Type 0
Sized mask b wide =
    (mask b.index ≡ 2 ^ 32 - 2 ^ min b.shift 32)
    × (wide ≡ true → mask (b.index + 1) ≡ 2 ^ 32 - 2 ^ (b.shift - 32))

pub placed-value :
    (d : HeaderData) (b : Bar) (a i : ℕ)
    → b.shift ≤ 62
    → a < 2 ^ 64
    → Sized (mask_of d) b (leb (2 ^ 32) a)
    → value_of (placed d b a) i ≡ header_written b a i (value_of d i)
placed-value d b a i k h m =
    let low = set_bar d b.index (u32 a) in
    let first =
      set_bar-value d b.index (min b.shift 32) (u32 a) i (omega arith) m.0 (omega arith) in
    elim (Bool-cases (leb (2 ^ 32) a)) [
      | inl y ↦
          let second =
            set_bar-value low (b.index + 1) (b.shift - 32) (u32 (a / 2 ^ 32)) i (omega arith)
              (set_bar-mask d b.index (b.index + 1) (u32 a) ∙ m.1 y) (omega arith) in
          let on : ltb (2 ^ 32 - 1) a ≡ true = ground arith in
          let high : u32 (a / 2 ^ 32) ≡ a / 2 ^ 32 = omega arith in
          rw (on, y)
            (join (value_of d i) (value_of low i) (value_of (placed_high d b a) i)
              (with_high (min b.shift 32) (u32 a)) (with_high (b.shift - 32) (a / 2 ^ 32)) i b.index
              first
              (second
                ∙ ap
                    (λ x.
                      if i == b.index + 1
                      then with_high (b.shift - 32) x (value_of low i)
                      else value_of low i)
                    high))
      | inr n ↦ let off : ltb (2 ^ 32 - 1) a ≡ false = ground arith in rw (off, n) first
    ]
  where
    placed_high : HeaderData → Bar → ℕ → HeaderData
    placed_high d b a = set_bar (set_bar d b.index (u32 a)) (b.index + 1) (u32 (a / 2 ^ 32))

    join :
        (v w x : Option ℕ) (f g : Option ℕ → Option ℕ) (i j : ℕ)
        → w ≡ (if i == j then f v else v)
        → x ≡ (if i == j + 1 then g w else w)
        → x ≡ (if i == j then f v else if i == j + 1 then g v else v)
    join v w x f g i j e k = elim (Bool-cases (i == j)) [
      | inl y ↦
          let apart : (i == j + 1) ≡ false = ground arith in
          rw y (k ∙ ap (λ t. if t then g w else w) apart ∙ e ∙ ap (λ t. if t then f v else v) y)
      | inr n ↦
          let same : w ≡ v = e ∙ ap (λ t. if t then f v else v) n in
          rw n (k ∙ ap (λ t. if i == j + 1 then g t else t) same)
    ]

pub placed-mask : (d : HeaderData) (b : Bar) (a i : ℕ) → mask_of (placed d b a) i ≡ mask_of d i
unfolding set_bar
placed-mask d b a i = elim (Bool-cases (ltb (2 ^ 32 - 1) a)) [
  | inl y ↦ rw y refl
  | inr n ↦ rw n refl
]
