-- ===== src/Pci/Segment.antt =====
-- alioth/src/pci/segment.rs: the devices of a PCI segment by number, and their configuration
-- spaces as one address range. A device is its state, behind the interface `PciConfig`; the order
-- of the devices stands for that of the hash map. The locks are not modelled.
pub mod Numbers
pub mod Assign
pub mod Reserve
pub mod Tests
use alioth.Base.{
  ℕ, zero, suc, ◌+◌, ◌-◌, ◌*◌, ◌/◌, ◌%◌, ◌^◌, max, Bool, true, false, ◌&&◌, List, [], ◌∷◌, map,
  Option, none, some, Result, ok, err, ◌>>=◌, leb, ltb, ◌==◌, if◌then◌else◌, bit_and,
}
use mathlib.Core.Option
use alioth.Base.Word.{u16}
use alioth.Mem.Error.{Error}
use alioth.Mem.Emulated.{Action, no_action}
use alioth.Pci.Bdf.{Bdf, bus}
use alioth.Pci.Config.{HeaderData}

-- `trait Pci` with its `config()`, and `C` for what a layout change calls back.
pub record PciConfig (P C : Type 0) : Type 0 where
  pub header : P → HeaderData
  pub with_header : P → HeaderData → P
  pub read : P → (offset size : ℕ) → Result Error ℕ
  pub write : P → (offset size val : ℕ) → Result Error (P × Action C)
  pub reset : P → Result Error P
  pub reset_config : P → Result Error P

-- What a number leads to: the placeholder of a reserved number, or a device.
pub data Entry (P : Type 0) : Type 0 where
  placeholder : Entry P
  device : P → Entry P

pub record PciSegment (P : Type 0) : Type 0 where
  pub devices : List (Bdf × Entry P)
  pub next_bdf : Bdf

module _ {P : Type 0} where
  unfoldable pub new : PciSegment P
  new = record { devices = []; next_bdf = 0 }

  -- `HashMap::get`, and `insert` with what it replaces.
  unfoldable pub get : List (Bdf × Entry P) → Bdf → Option (Entry P)
  get [] b = none
  get ((k, e) ∷ ds) b = if k == b then some e else get ds b

  unfoldable pub insert : List (Bdf × Entry P) → Bdf → Entry P → List (Bdf × Entry P)
  insert [] b e = (b, e) ∷ []
  insert ((k, x) ∷ ds) b e = if k == b then (k, e) ∷ ds else (k, x) ∷ insert ds b e

  unfoldable pub max_bus : PciSegment P → Option ℕ
  max_bus s = max_of (map (λ d. bus d.0) s.devices)
    where
      largest : ℕ → List ℕ → ℕ
      largest n [] = n
      largest n (x ∷ xs) = largest (max n x) xs

      max_of : List ℕ → Option ℕ
      max_of [] = none
      max_of (n ∷ ns) = some (largest n ns)

  -- A device that is there already stays, and the new one is given back.
  unfoldable pub add : PciSegment P → Bdf → Entry P → PciSegment P × Option (Entry P)
  unfolding get insert
  add s bdf dev =
      let placed = record s { devices = insert s.devices bdf dev } in
      elim (get s.devices bdf) [
        | none ↦ (placed, none)
        | some placeholder ↦ (placed, none)
        | some (device p) ↦
            (record s { devices = insert placed.devices bdf (device p) }, get placed.devices bdf)
      ]

  -- What the loop of `reserve` does with the result of `add`.
  abbrev pub on_added :
      (bdf init : Bdf)
      → (PciSegment P → Option (PciSegment P × Option Bdf))
      → PciSegment P × Option (Entry P)
      → Option (PciSegment P × Option Bdf)
  on_added bdf init again (s, none) = some (s, some bdf)
  on_added bdf init again (s, some d) = if s.next_bdf == init then some (s, none) else again s

  -- The loop of `reserve`, from `init` on, with fuel.
  unfoldable pub reserve_from : ℕ → (init : Bdf) → PciSegment P → Option (PciSegment P × Option Bdf)
  unfolding add
  reserve_from zero init s = none
  reserve_from (suc fuel) init s =
      on_added s.next_bdf init (reserve_from fuel init)
        (add (record s { next_bdf = u16 (s.next_bdf + 8) }) s.next_bdf placeholder)

  -- There are 8192 numbers of function 0.
  unfoldable pub reserve : PciSegment P → Option Bdf → Option (PciSegment P × Option Bdf)
  unfolding reserve_from
  reserve s (some bdf) =
      let (s', taken) = add s bdf placeholder in
      elim taken [ none ↦ some (s', some bdf) | some d ↦ some (s', none) ]
  reserve s none = reserve_from 8192 s.next_bdf s

module _ {P C : Type 0} (cfg : PciConfig P C) where
  -- What a number reads as. The configuration space of the placeholder is `unreachable!`: no
  -- result.
  abbrev pub read_entry : Option (Entry P) → (offset size : ℕ) → Option (Result Error ℕ)
  read_entry none offset size = some (ok (2 ^ 64 - 1))
  read_entry (some placeholder) offset size = none
  read_entry (some (device p)) offset size = some (cfg.read p offset size)

  unfoldable pub read : PciSegment P → (offset size : ℕ) → Option (Result Error ℕ)
  unfolding get
  read s offset size =
      read_entry (get s.devices (u16 (offset / 2 ^ 12))) (bit_and offset 0xfff) size

  abbrev keep :
      PciSegment P → Bdf → Result Error (P × Action C) → PciSegment P × Result Error (Action C)
  keep s bdf (ok (p, action)) = (record s { devices = insert s.devices bdf (device p) }, ok action)
  keep s bdf (err e) = (s, err e)

  unfoldable pub write :
      PciSegment P → (offset size val : ℕ) → Option (PciSegment P × Result Error (Action C))
  unfolding get insert
  write s offset size val =
      let bdf = u16 (offset / 2 ^ 12) in
      elim (get s.devices bdf) [
        | none ↦ some (s, ok no_action)
        | some placeholder ↦ none
        | some (device p) ↦ some (keep s bdf (cfg.write p (bit_and offset 0xfff) size val))
      ]

  -- The devices are reset one by one, up to the first error. The placeholder has no `reset`.
  reset_device : P → Result Error P
  reset_device p = do p' ← cfg.reset p; cfg.reset_config p'

  unfoldable pub reset_all :
      List (Bdf × Entry P) → Option (List (Bdf × Entry P) × Result Error (Unit {0}))
  unfolding reset_device
  reset_all [] = some ([], ok tt)
  reset_all ((b, placeholder) ∷ ds) = none
  reset_all ((b, device p) ∷ ds) = elim (reset_device p) [
    | err e ↦ some ((b, device p) ∷ ds, err e)
    | ok p' ↦ Option.map (λ r. ((b, device p') ∷ r.0, r.1)) (reset_all ds)
  ]

-- 256 buses of 32 devices with 8 functions of 4096 bytes.
abbrev pub size : ℕ
size = 256 * 32 * 8 * 4096
