-- ===== src/Device/FwCfg/Ports.antt =====
-- alioth/src/device/fw_cfg/fw_cfg.rs: the ports of the device, and that the data port gives the
-- bytes of the selected item in order.
use alioth.Base.{
  ℕ, zero, suc, ◌+◌, ◌-◌, ◌*◌, ◌/◌, ◌^◌, ◌<◌, ◌≡◌, refl, ◌&&◌, List, [], ◌∷◌, Option, none, some,
  ◌==◌, if◌then◌else◌, bit_or, bit_and, get_elem?, drop, arith, Option-cases, inl, inr, ap, sym,
  ◌∙◌,
}
use alioth.Base.Word.{u16, u32}
use alioth.Mem.Mapped.{Ram, Host}
use alioth.Device.FwCfg.{
  FwCfg, FwCfgContent, content_bytes, content_read, content_at, lookup, read_data, do_dma, swap32,
  advance,
}

abbrev pub size : ℕ
size = 16

abbrev pub port_selector : ℕ
port_selector = 0x510

-- The value of a read, and the device after it.
unfoldable pub read : FwCfg → (offset size : ℕ) → FwCfg × ℕ
unfolding read_data
read d offset size =
    let port = u16 (u16 offset + port_selector) in
    if port == 0x511 && size == 1
    then read_data d
    else if port == 0x514 && size == 4
    then (d, swap32 (d.dma_address / 2 ^ 32))
    else if port == 0x518 && size == 4
    then (d, swap32 (u32 d.dma_address))
    else (d, 0)

-- The data port ignores what is written to it.
unfoldable pub write : FwCfg → (offset size val : ℕ) → Ram → Host → Option (FwCfg × Host)
unfolding do_dma
write d offset size val m h =
    let port = u16 (u16 offset + port_selector) in
    if port == 0x510 && size == 2
    then some (record d { selector = u16 val; data_offset = 0 }, h)
    else if port == 0x514 && size == 4
    then some (record d { dma_address = bit_or (u32 d.dma_address) (swap32 (u32 val) * 2 ^ 32) }, h)
    else if port == 0x518 && size == 4
    then do_dma
        (record d {
          dma_address = bit_or (bit_and d.dma_address (2 ^ 64 - 2 ^ 32)) (swap32 (u32 val));
        })
        m h
    else some (d, h)

-- `n` reads of the data port.
abbrev pub reads : ℕ → FwCfg → List ℕ
reads zero d = []
reads (suc n) d = let (d', b) = read d 1 1 in b ∷ reads n d'

-- The bytes of a list from an offset, then zeros.
abbrev pub padded : ℕ → List ℕ → List ℕ
padded zero bs = []
padded (suc n) [] = 0 ∷ padded n []
padded (suc n) (b ∷ bs) = b ∷ padded n bs

drop-some : (xs : List ℕ) (i b : ℕ) → get_elem? xs i ≡ some b → drop i xs ≡ b ∷ drop (suc i) xs
drop-some [] i b e = absurd (ground arith)
drop-some (x ∷ xs) zero b e = ground arith
drop-some (x ∷ xs) (suc i) b e = drop-some xs i b e

drop-none : (xs : List ℕ) (i : ℕ) → get_elem? xs i ≡ none → drop i xs ≡ []
drop-none [] zero e = refl
drop-none [] (suc i) e = refl
drop-none (x ∷ xs) zero e = absurd (ground arith)
drop-none (x ∷ xs) (suc i) e = drop-none xs i e

-- A read of the data port by what stands at the offset.
read-advance :
    (d : FwCfg) (c : FwCfgContent)
    → lookup d d.selector ≡ some c
    → read d 1 1 ≡ advance d (get_elem? (content_bytes c) d.data_offset)
unfolding read read_data content_read
read-advance d c e = ap (λ o. advance d (content_at o d.data_offset)) e

pub reads-padded :
    (n : ℕ) (d : FwCfg) (c : FwCfgContent)
    → lookup d d.selector ≡ some c
    → d.data_offset + n < 2 ^ 32
    → reads n d ≡ padded n (drop d.data_offset (content_bytes c))
unfolding lookup
reads-padded zero d c e h = refl
reads-padded (suc n) d c e h = elim (Option-cases (get_elem? (content_bytes c) d.data_offset)) [
  | inl q ↦
      let nothing = drop-none (content_bytes c) d.data_offset q in
      ap (λ r. r.1 ∷ reads n r.0) (read-advance d c e ∙ ap (advance d) q)
      ∙ ap (λ bs. 0 ∷ bs) (reads-padded n d c e (omega arith) ∙ ap (padded n) nothing)
      ∙ sym (ap (padded (suc n)) nothing)
  | inr (b, q) ↦
      let next = u32 (d.data_offset + 1) in
      let same : next ≡ suc d.data_offset = omega arith in
      ap (λ r. r.1 ∷ reads n r.0) (read-advance d c e ∙ ap (advance d) q)
      ∙ ap (λ bs. b ∷ bs)
          (reads-padded n (record d { data_offset = next }) c e (omega arith)
            ∙ ap (λ i. padded n (drop i (content_bytes c))) same)
      ∙ sym (ap (padded (suc n)) (drop-some (content_bytes c) d.data_offset b q))
]

-- Writing a 16-bit selector that names an item and reading the data port fewer than 2^32 times gives the
-- bytes of the item from its start, in order, and then zeros.
pub reads-selected :
    (d : FwCfg) (selector n : ℕ) (c : FwCfgContent) (m : Ram) (h : Host)
    → selector < 2 ^ 16
    → lookup d selector ≡ some c
    → n < 2 ^ 32
    → (d' : FwCfg) × (write d 0 2 selector m h ≡ some (d', h))
      × (reads n d' ≡ padded n (content_bytes c))
unfolding write lookup
reads-selected d selector n c m h w e k =
    let d' = record d { selector = u16 selector; data_offset = 0 } in
    let named : u16 selector ≡ selector = omega arith in
    (d', refl, reads-padded n d' c (ap (lookup d) named ∙ e) (omega arith))
