-- ===== src/Pci/Segment/Assign.antt =====
-- alioth/src/pci/segment.rs: `assign_resources`, which gives the base address registers of all
-- devices their addresses.
pub mod Placed
pub mod Written
pub mod Masks
pub mod Plan
pub mod Packed
use alioth.Base.{
  ℕ, zero, suc, ◌+◌, ◌-◌, ◌*◌, ◌/◌, ◌%◌, ◌^◌, Bool, true, false, ◌&&◌, ◌||◌, List, [], ◌∷◌, ◌++◌,
  Option, none, some, leb, ltb, ◌==◌, if◌then◌else◌, bit_and, bit_or, min,
}
use alioth.Base.Word.{u32, u64}
use alioth.Utils.{align_up}
use mathlib.Core.Option
use alioth.Pci.Bdf.{Bdf}
use alioth.Pci.Config.{HeaderData, get_bar, set_bar, has, bar_mem64, bar_io, bar_prefetchable}
use alioth.Pci.Segment.{Entry, placeholder, device, PciSegment, PciConfig, get, insert}

-- An element of `bar_list`: the size is `1 << shift`, so `shift` is its `trailing_zeros`.
pub record Bar : Type 0 where
  pub bdf : Bdf
  pub index : ℕ
  pub shift : ℕ

abbrev pub bar_size : Bar → ℕ
bar_size b = 2 ^ b.shift

-- `u64::trailing_zeros` of a number other than 0.
unfoldable pub trailing_zeros_from : (fuel mask : ℕ) → ℕ
trailing_zeros_from zero mask = 0
trailing_zeros_from (suc fuel) mask =
    let rest = trailing_zeros_from fuel (mask / 2) in if mask % 2 == 1 then 0 else suc rest

unfoldable pub trailing_zeros : ℕ → ℕ
unfolding trailing_zeros_from
trailing_zeros mask = trailing_zeros_from 64 mask

-- The list that a register belongs to: ports, 32-bit, 32-bit prefetchable, 64-bit prefetchable.
-- A 64-bit register that is not prefetchable is `unreachable!`.
unfoldable pub bar_kind : ℕ → Option ℕ
bar_kind val =
    if has bar_io val
    then some 0
    else if has (bar_mem64 + bar_prefetchable) val
    then some 3
    else if bit_and val (bar_mem64 + bar_prefetchable) == bar_mem64
    then none
    else if has bar_prefetchable val
    then some 2
    else some 1

-- The mask of a register, with that of the high half, and the index after it.
unfoldable pub whole_mask : HeaderData → ℕ → ℕ × ℕ
whole_mask d index =
    let (val, mask) = get_bar d index in
    if has bar_mem64 val
    then (bit_or mask ((get_bar d (index + 1)).1 * 2 ^ 32), index + 2)
    else (mask, index + 1)

-- The registers of one device from `index` on, each with its list; no result is a panic.
unfoldable pub collect_bars : (fuel : ℕ) → Bdf → HeaderData → (index : ℕ) → Option (List (ℕ × Bar))
unfolding bar_kind whole_mask trailing_zeros
collect_bars zero bdf d index = some []
collect_bars (suc fuel) bdf d index =
    let (mask, next) = whole_mask d index in
    let rest = collect_bars fuel bdf d next in
    if leb 6 index
    then some []
    else if mask == 0
    then rest
    else elim (bar_kind (get_bar d index).0) [
      | none ↦ none
      | some kind ↦
          Option.map
            (λ bars.
              (kind, record { bdf = bdf; index = index; shift = trailing_zeros mask }) ∷ bars)
            rest
    ]

-- `sort_by_key` with the key `(u64::MAX - size, bdf, index)`: larger sizes first.
unfoldable pub before : Bar → Bar → Bool
before a b =
    ltb b.shift a.shift
    || (a.shift == b.shift && (ltb a.bdf b.bdf || (a.bdf == b.bdf && leb a.index b.index)))

unfoldable pub insert_bar : Bar → List Bar → List Bar
unfolding before
insert_bar b [] = b ∷ []
insert_bar b (c ∷ cs) = if before b c then b ∷ c ∷ cs else c ∷ insert_bar b cs

unfoldable pub sort_bars : List Bar → List Bar
unfolding insert_bar
sort_bars [] = []
sort_bars (b ∷ bs) = insert_bar b (sort_bars bs)

module _ {P C : Type 0} (cfg : PciConfig P C) where
  -- The write of an address to a register of a device, the high half only where there is one.
  unfoldable pub place_bar : List (Bdf × Entry P) → Bar → (addr : ℕ) → List (Bdf × Entry P)
  place_bar devices b addr = elim (get devices b.bdf) [
    | none ↦ devices
    | some placeholder ↦ devices
    | some (device p) ↦
        let low = set_bar (cfg.header p) b.index (u32 addr) in
        let whole =
          if ltb (2 ^ 32 - 1) addr then set_bar low (b.index + 1) (u32 (addr / 2 ^ 32)) else low in
        insert devices b.bdf (device (cfg.with_header p whole))
  ]

  -- One round of the loop over a list: the devices and the next address. A register that does not
  -- fit is left alone.
  unfoldable pub place_next : List (Bdf × Entry P) → (addr end : ℕ) → Bar → List (Bdf × Entry P) × ℕ
  unfolding place_bar
  place_next devices addr end b =
      let aligned_addr = align_up addr b.shift in
      if ltb end (u64 (aligned_addr + bar_size b))
      then (devices, addr)
      else (place_bar devices b aligned_addr, u64 (aligned_addr + bar_size b))

  unfoldable pub place_bars :
      List (Bdf × Entry P) → (addr end : ℕ) → List Bar → List (Bdf × Entry P)
  unfolding place_next
  place_bars devices addr end [] = devices
  place_bars devices addr end (b ∷ bs) =
      let (devices', addr') = place_next devices addr end b in place_bars devices' addr' end bs

  all_bars : List (Bdf × Entry P) → Option (List (ℕ × Bar))
  unfolding collect_bars
  all_bars [] = some []
  all_bars ((b, placeholder) ∷ ds) = none
  all_bars ((b, device p) ∷ ds) = elim (collect_bars 6 b (cfg.header p) 0) [
    | none ↦ none
    | some bars ↦ Option.map (λ rest. bars ++ rest) (all_bars ds)
  ]

  abbrev of_kind : ℕ → List (ℕ × Bar) → List Bar
  of_kind k [] = []
  of_kind k ((j, b) ∷ bs) = if j == k then b ∷ of_kind k bs else of_kind k bs

  -- The resources are the windows of the lists, in their order.
  fill : (kind : ℕ) → List (ℕ × Bar) → List (ℕ × ℕ) → List (Bdf × Entry P) → List (Bdf × Entry P)
  unfolding sort_bars place_bars
  fill kind bars [] devices = devices
  fill kind bars ((start, end) ∷ rs) devices =
      fill (kind + 1) bars rs (place_bars devices start end (sort_bars (of_kind kind bars)))

  unfoldable pub assign_resources : PciSegment P → List (ℕ × ℕ) → Option (PciSegment P)
  unfolding all_bars fill
  assign_resources s resources =
      Option.map (λ bars. record s { devices = fill 0 bars resources s.devices })
        (all_bars s.devices)
