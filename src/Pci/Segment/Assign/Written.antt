-- ===== src/Pci/Segment/Assign/Written.antt =====
-- What the base address registers of all devices hold after `assign_resources` of segment.rs wrote an
-- address.
use alioth.Base.{
  ℕ, ◌+◌, ◌^◌, ◌<◌, ◌≤◌, ◌≡◌, inl, inr, refl, sym, ap, ◌∙◌, List, Option, none, some, ◌==◌,
  if◌then◌else◌, Bool-cases, leb, ==_iff, ◌&&◌,
}
use alioth.Pci.Bdf.{Bdf}
use alioth.Pci.Config.{HeaderData}
use alioth.Pci.Segment.{Entry, placeholder, device, PciConfig, get}
use alioth.Pci.Segment.Numbers.{get-insert}
use alioth.Pci.Segment.Assign.{Bar, place_bar}
use alioth.Pci.Segment.Assign.Placed.{
  value_of, mask_of, header_written, written_one, placed, Sized, placed-value, placed-mask,
}

module _ {P C : Type 0} (cfg : PciConfig P C) where
  abbrev pub entry_value : Option (Entry P) → ℕ → Option ℕ
  entry_value none i = none
  entry_value (some placeholder) i = none
  entry_value (some (device p)) i = value_of (cfg.header p) i

  abbrev pub entry_mask : Option (Entry P) → ℕ → ℕ
  entry_mask none i = 0
  entry_mask (some placeholder) i = 0
  entry_mask (some (device p)) i = mask_of (cfg.header p) i

  -- The register `i` of the device with a number.
  unfoldable pub value_at : List (Bdf × Entry P) → Bdf → ℕ → Option ℕ
  value_at devices c i = entry_value (get devices c) i

  unfoldable pub mask_at : List (Bdf × Entry P) → Bdf → ℕ → ℕ
  mask_at devices c i = entry_mask (get devices c) i

  header_written-none : (b : Bar) (a i : ℕ) → header_written b a i none ≡ none
  header_written-none b a i = elim (Bool-cases (i == b.index)) [
    | inl y ↦ rw y refl
    | inr n ↦ elim (Bool-cases (leb (2 ^ 32) a && i == b.index + 1)) [
      | inl y' ↦ rw (n, y') refl
      | inr n' ↦ rw (n, n') refl
    ]
  ]

  -- What a device's entry becomes.
  abbrev placed_entry : Option (Entry P) → Bar → ℕ → Option (Entry P)
  placed_entry none b a = none
  placed_entry (some placeholder) b a = some placeholder
  placed_entry (some (device p)) b a = some (device (cfg.with_header p (placed (cfg.header p) b a)))

  get_same :
      (devices : List (Bdf × Entry P)) (k c : Bdf) (o : Option (Entry P))
      → get devices k ≡ o
      → get devices c ≡ (if k == c then o else get devices c)
  get_same devices k c o e = elim (Bool-cases (k == c)) [
    | inl y ↦ rw y (ap (get devices) (sym ((==_iff k c).0 y)) ∙ e)
    | inr n ↦ rw n refl
  ]

  get-place_bar :
      (devices : List (Bdf × Entry P)) (b : Bar) (a : ℕ) (c : Bdf) (o : Option (Entry P))
      → get devices b.bdf ≡ o
      → get (place_bar cfg devices b a) c
        ≡ (if b.bdf == c then placed_entry o b a else get devices c)
  unfolding place_bar
  get-place_bar devices b a c none e = rw (e, place_bar) (get_same devices b.bdf c none e)
  get-place_bar devices b a c (some placeholder) e =
      rw (e, place_bar) (get_same devices b.bdf c (some placeholder) e)
  get-place_bar devices b a c (some (device p)) e =
      rw (e, place_bar)
        (get-insert devices b.bdf c (device (cfg.with_header p (placed (cfg.header p) b a))))

  entry_value-placed_entry :
      (o : Option (Entry P)) (b : Bar) (a i : ℕ)
      → ((p : P) (h : HeaderData) → cfg.header (cfg.with_header p h) ≡ h)
      → b.shift ≤ 62
      → a < 2 ^ 64
      → Sized (entry_mask o) b (leb (2 ^ 32) a)
      → entry_value (placed_entry o b a) i ≡ header_written b a i (entry_value o i)
  entry_value-placed_entry none b a i law k h m = sym (header_written-none b a i)
  entry_value-placed_entry (some placeholder) b a i law k h m = sym (header_written-none b a i)
  entry_value-placed_entry (some (device p)) b a i law k h m =
      ap (λ d. value_of d i) (law p (placed (cfg.header p) b a))
      ∙ placed-value (cfg.header p) b a i k h m

  entry_mask-placed_entry :
      (o : Option (Entry P)) (b : Bar) (a i : ℕ)
      → ((p : P) (h : HeaderData) → cfg.header (cfg.with_header p h) ≡ h)
      → entry_mask (placed_entry o b a) i ≡ entry_mask o i
  entry_mask-placed_entry none b a i law = refl
  entry_mask-placed_entry (some placeholder) b a i law = refl
  entry_mask-placed_entry (some (device p)) b a i law =
      ap (λ d. mask_of d i) (law p (placed (cfg.header p) b a)) ∙ placed-mask (cfg.header p) b a i

  pub value_at-place_bar :
      (devices : List (Bdf × Entry P)) (b : Bar) (a : ℕ) (c : Bdf) (i : ℕ)
      → ((p : P) (h : HeaderData) → cfg.header (cfg.with_header p h) ≡ h)
      → b.shift ≤ 62
      → a < 2 ^ 64
      → Sized (mask_at devices b.bdf) b (leb (2 ^ 32) a)
      → value_at (place_bar cfg devices b a) c i ≡ written_one b a c i (value_at devices c i)
  unfolding place_bar value_at mask_at
  value_at-place_bar devices b a c i law k h m =
      ap (λ o. entry_value o i) (get-place_bar devices b a c (get devices b.bdf) refl)
      ∙ elim (Bool-cases (b.bdf == c)) [
        | inl y ↦ rw y (
            entry_value-placed_entry (get devices b.bdf) b a i law k h m
            ∙ ap (λ t. header_written b a i (entry_value (get devices t) i)) ((==_iff b.bdf c).0 y))
        | inr n ↦ rw n refl
      ]

  pub mask_at-place_bar :
      (devices : List (Bdf × Entry P)) (b : Bar) (a : ℕ) (c : Bdf) (i : ℕ)
      → ((p : P) (h : HeaderData) → cfg.header (cfg.with_header p h) ≡ h)
      → mask_at (place_bar cfg devices b a) c i ≡ mask_at devices c i
  unfolding place_bar mask_at
  mask_at-place_bar devices b a c i law =
      ap (λ o. entry_mask o i) (get-place_bar devices b a c (get devices b.bdf) refl)
      ∙ elim (Bool-cases (b.bdf == c)) [
        | inl y ↦ rw y (
            entry_mask-placed_entry (get devices b.bdf) b a i law
            ∙ ap (λ t. entry_mask (get devices t) i) ((==_iff b.bdf c).0 y))
        | inr n ↦ rw n refl
      ]
