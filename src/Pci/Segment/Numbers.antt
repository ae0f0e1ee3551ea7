-- ===== src/Pci/Segment/Numbers.antt =====
-- The numbers of the devices of segment.rs: what `add` and `reserve` do to the map.
use alioth.Base.{
  ◌≡◌, refl, List, [], ◌∷◌, Option, none, some, ◌==◌, if◌then◌else◌, arith, Bool-cases, ap, sym,
  ◌∙◌, ==_iff, inl, inr, ◌⊎◌,
}
use alioth.Pci.Bdf.{Bdf}
use alioth.Pci.Segment.{Entry, placeholder, device, PciSegment, get, insert, add}

module _ {P : Type 0} where
  -- A number is free if nothing or the placeholder is there.
  abbrev pub IsFree : Option (Entry P) → Type 0
  IsFree none = Unit
  IsFree (some placeholder) = Unit
  IsFree (some (device p)) = ⊥

  abbrev pub IsTaken : Option (Entry P) → Type 0
  IsTaken o = (p : P) × (o ≡ some (device p))

  pub get-insert :
      (ds : List (Bdf × Entry P)) (b c : Bdf) (e : Entry P)
      → get (insert ds b e) c ≡ (if b == c then some e else get ds c)
  unfolding get insert
  get-insert [] b c e = refl
  get-insert ((k, x) ∷ ds) b c e = ground (arith, get-insert ds b c e)

  -- Putting back what was there leaves the map as it was.
  insert-insert :
      (ds : List (Bdf × Entry P)) (b : Bdf) (e x : Entry P)
      → get ds b ≡ some x
      → insert (insert ds b e) b x ≡ ds
  unfolding get insert
  insert-insert [] b e x h = absurd (ground arith)
  insert-insert ((k, y) ∷ ds) b e x h = ground (arith, insert-insert ds b e x)

  pub add-free :
      (s : PciSegment P) (b : Bdf) (dev : Entry P)
      → IsFree (get s.devices b)
      → add s b dev ≡ (record s { devices = insert s.devices b dev }, none)
  unfolding add
  add-free s b dev h = ground arith

  pub add-taken :
      (s : PciSegment P) (b : Bdf) (dev : Entry P) (p : P)
      → get s.devices b ≡ some (device p)
      → add s b dev ≡ (s, some dev)
  unfolding add
  add-taken s b dev p h =
      ground (arith, get-insert s.devices b b dev, insert-insert s.devices b dev (device p) h)

  pub Entry-cases : (o : Option (Entry P)) → IsFree o ⊎ IsTaken o
  Entry-cases none = inl tt
  Entry-cases (some placeholder) = inl tt
  Entry-cases (some (device p)) = inr (p, refl)

  -- What a call of `add` leaves at every number.
  abbrev after : Option (Entry P) → Entry P → Option (Entry P)
  after (some (device p)) dev = some (device p)
  after (some placeholder) dev = some dev
  after none dev = some dev

  after_free : (o : Option (Entry P)) (dev : Entry P) → IsFree o → after o dev ≡ some dev
  after_free none dev h = refl
  after_free (some placeholder) dev h = refl
  after_free (some (device _)) dev h = elim h [ ]

  get_same :
      (ds : List (Bdf × Entry P)) (b c : Bdf) → (if b == c then get ds b else get ds c) ≡ get ds c
  get_same ds b c = elim (Bool-cases (b == c)) [
    | inl y ↦ rw y (ap (get ds) ((==_iff b c).0 y))
    | inr n ↦ rw n refl
  ]

  get-add :
      (s : PciSegment P) (b c : Bdf) (dev : Entry P)
      → get (add s b dev).0.devices c
        ≡ (if b == c then after (get s.devices b) dev else get s.devices c)
  get-add s b c dev = elim (Entry-cases (get s.devices b)) [
    | inl free ↦
        rw (add-free s b dev free, after_free (get s.devices b) dev free)
          (get-insert s.devices b c dev)
    | inr (p, e) ↦ rw (add-taken s b dev p e, e) (taken s b c p e)
  ]
    where
      taken :
          (s : PciSegment P) (b c : Bdf) (p : P)
          → get s.devices b ≡ some (device p)
          → get s.devices c ≡ (if b == c then some (device p) else get s.devices c)
      taken s b c p e =
          sym (ap (λ o. if b == c then o else get s.devices c) (sym e) ∙ get_same s.devices b c)
