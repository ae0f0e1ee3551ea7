-- ===== src/Device/FwCfg/Directory.antt =====
-- The file directory of fw_cfg.rs: it lists the items, whatever order they were added in.
use alioth.Base.{
  ap₂, ◌-◌, ◌/◌, ◌%◌, min, take, replicate, length-drop, ℕ, zero, suc, ◌+◌, ◌<◌, ◌≡◌, refl, List,
  [], ◌∷◌, ◌++◌, some, Result, ok, get_elem?, set, length, arith, ap, sym, subst, ◌∙◌, append_assoc,
  append-nil, inl, inr, Result-cases, get_elem?-lt, length-append,
}
use alioth.Base.Word.{u16, u32}
use alioth.Device.FwCfg.{
  FwCfg, FwCfgItem, FwCfgContent, bytes, slice, file, lu16, lu32, lu64, ErrorKind, content_size,
  to_be_bytes, file_first,
}
use alioth.Device.FwCfg.Items.{
  file_entry, create_file_name, file_dir, dir_bytes, get_file_dir, set_known, with_count, add_item,
  add_items, new, empty_device,
}

-- A number in four bytes and in two, the highest first.
abbrev pub be4 : ℕ → List ℕ
be4 x = x / 16777216 % 256 ∷ x / 65536 % 256 ∷ x / 256 % 256 ∷ x % 256 ∷ []

abbrev pub be2 : ℕ → List ℕ
be2 x = x / 256 % 256 ∷ x % 256 ∷ []

-- How many bytes a content has.
abbrev pub size_of : FwCfgContent → ℕ
size_of (bytes b) = length b
size_of (slice b) = length b
size_of (file offset f) = length f - offset
size_of (lu16 n) = 2
size_of (lu32 n) = 4
size_of (lu64 n) = 8

-- A name in `n` bytes: what is too long is cut, the rest is zeros, and the last byte is one.
abbrev pub name_field : (n : ℕ) → List ℕ → List ℕ
name_field zero name = []
name_field (suc zero) name = 0 ∷ []
name_field (suc (suc n)) [] = 0 ∷ name_field (suc n) []
name_field (suc (suc n)) (c ∷ cs) = c ∷ name_field (suc n) cs

-- The directory as the list of items gives it: each entry has the size of the item, its selector,
-- which counts up from 0x20, two zeros and the name.
abbrev pub entry_of : ℕ → FwCfgItem → List ℕ
entry_of i x = be4 (size_of x.content) ++ be2 (0x20 + i) ++ (0 ∷ 0 ∷ []) ++ name_field 56 x.name

abbrev pub entries_from : ℕ → List FwCfgItem → List ℕ
entries_from i [] = []
entries_from i (x ∷ xs) = entry_of i x ++ entries_from (suc i) xs

abbrev pub IsDir : FwCfg → Type 0
IsDir d =
    get_elem? d.known_items file_dir ≡ some (bytes (be4 (length d.items) ++ entries_from 0 d.items))

entries_from-append :
    (i : ℕ) (xs : List FwCfgItem) (x : FwCfgItem)
    → entries_from i (xs ++ (x ∷ [])) ≡ entries_from i xs ++ entry_of (i + length xs) x
entries_from-append i [] x =
    append-nil (entry_of i x) ∙ ap (λ j. entry_of j x) {y = i + 0} (omega arith)
entries_from-append i (y ∷ xs) x =
    ap (λ es. entry_of i y ++ es)
      (entries_from-append (suc i) xs x
        ∙ ap (λ j. entries_from (suc i) xs ++ entry_of j x) {y = i + suc (length xs)} (omega arith))
    ∙ sym (append_assoc (entry_of i y) (entries_from (suc i) xs) (entry_of (i + suc (length xs)) x))

get_elem?-set :
    (xs : List FwCfgContent) (i : ℕ) (v : FwCfgContent)
    → i < length xs
    → get_elem? (set xs i v) i ≡ some v
get_elem?-set [] i v h = elim h [ ]
get_elem?-set (x ∷ xs) zero v h = refl
get_elem?-set (x ∷ xs) (suc i) v h = get_elem?-set xs i v (omega arith)

content_size-size_of : (c : FwCfgContent) (n : ℕ) → content_size c ≡ ok n → n ≡ size_of c
unfolding content_size
content_size-size_of (bytes b) n e = ground arith
content_size-size_of (slice b) n e = ground arith
content_size-size_of (file offset f) n e = ground (arith, length-drop offset f)
content_size-size_of (lu16 v) n e = ground arith
content_size-size_of (lu32 v) n e = ground arith
content_size-size_of (lu64 v) n e = ground arith

to_be_bytes-be4 : (x : ℕ) → to_be_bytes 4 x ≡ be4 x
to_be_bytes-be4 x =
    ap (λ y. x / 16777216 % 256 ∷ x / 65536 % 256 ∷ x / 256 % 256 ∷ y % 256 ∷ []) (omega arith)

zero-min : (n : ℕ) → min 0 n ≡ 0
zero-min n = omega arith

min-zero : (n : ℕ) → min n 0 ≡ 0
min-zero n = omega arith

min-suc : (m n : ℕ) → min (suc m) (suc n) ≡ suc (min m n)
min-suc m n = omega arith

zeros_field : (n : ℕ) → replicate (suc n) 0 ≡ name_field (suc n) []
zeros_field zero = refl
zeros_field (suc n) = ap (λ zs. 0 ∷ zs) (zeros_field n)

name_field-create :
    (n : ℕ) (name : List ℕ)
    → take (min n (length name)) name ++ replicate (suc n - min n (length name)) 0
      ≡ name_field (suc n) name
name_field-create zero name = rw (zero-min (length name)) refl
name_field-create (suc n) [] = rw (min-zero (suc n)) (
    ap (λ k. replicate k 0) {x = suc (suc n) - 0} {y = suc (suc n)} (omega arith)
    ∙ zeros_field (suc n))
name_field-create (suc n) (c ∷ cs) = rw (min-suc n (length cs)) (
    ap (λ k. c ∷ (take (min n (length cs)) cs ++ replicate k 0)) (omega arith)
    ∙ ap (λ bs. c ∷ bs) (name_field-create n cs))

file_entry-entry_of :
    (i : ℕ) (x : FwCfgItem) (n : ℕ)
    → content_size x.content ≡ ok n
    → file_entry n (u16 (file_first + u16 i)) x.name ≡ entry_of i x
unfolding file_entry create_file_name
file_entry-entry_of i x n e =
    let sizes : to_be_bytes 4 n ≡ be4 (size_of x.content) =
      to_be_bytes-be4 n ∙ ap be4 (content_size-size_of x.content n e) in
    let selects : to_be_bytes 2 (u16 (file_first + u16 i)) ≡ be2 (0x20 + i) =
      ap₂ (λ a b. a ∷ b ∷ []) (omega arith) (omega arith) in
    ap₂ (λ a b. a ++ b ++ (0 ∷ 0 ∷ []) ++ create_file_name x.name) sizes selects
    ∙ ap (λ c. be4 (size_of x.content) ++ be2 (0x20 + i) ++ (0 ∷ 0 ∷ []) ++ c)
        (name_field-create 55 x.name)

be4-u32 : (x : ℕ) → be4 (u32 x) ≡ be4 x
be4-u32 x =
    ap₂ (λ a b. a ++ b) {x = u32 x / 16777216 % 256 ∷ u32 x / 65536 % 256 ∷ []}
      (ap₂ (λ a b. a ∷ b ∷ []) (omega arith) (omega arith))
      (ap₂ (λ a b. a ∷ b ∷ []) (omega arith) (omega arith))

-- The directory after an item of `n` bytes was added.
new_dir : FwCfg → FwCfgItem → ℕ → List ℕ
new_dir d item n =
    with_count (suc (length d.items))
      (get_file_dir d ++ file_entry n (u16 (file_first + u16 (length d.items))) item.name)

new_dir-entries :
    (d : FwCfg) (item : FwCfgItem) (n : ℕ)
    → IsDir d
    → content_size item.content ≡ ok n
    → new_dir d item n
      ≡ be4 (length (d.items ++ (item ∷ []))) ++ entries_from 0 (d.items ++ (item ∷ []))
unfolding new_dir get_file_dir
new_dir-entries d item n v q =
    let k = length d.items in
    let entry = file_entry n (u16 (file_first + u16 k)) item.name in
    let same : entry ≡ entry_of (0 + k) item =
      file_entry-entry_of k item n q ∙ ap (λ j. entry_of j item) {y = 0 + k} (omega arith) in
    let count : suc k ≡ length (d.items ++ (item ∷ [])) =
      omega (arith, length-append d.items (item ∷ [])) in
    ap (λ c. with_count (suc k) (dir_bytes c ++ entry)) v
    ∙ ap (λ c. c ++ (entries_from 0 d.items ++ entry))
        (to_be_bytes-be4 (u32 (suc k)) ∙ be4-u32 (suc k))
    ∙ ap (λ c. be4 c ++ (entries_from 0 d.items ++ entry)) count
    ∙ ap (λ es. be4 (length (d.items ++ (item ∷ []))) ++ es)
        (ap (λ es. entries_from 0 d.items ++ es) same ∙ sym (entries_from-append 0 d.items item))

ok_inj : (d d' : FwCfg) → ◌≡◌ {A = Result ErrorKind FwCfg} (ok d) (ok d') → d ≡ d'
ok_inj d d' e = cc

-- `add_item` keeps the directory in step with the items.
add_item-IsDir :
    (d d' : FwCfg) (item : FwCfgItem)
    → IsDir d
    → add_item d item ≡ ok d'
    → IsDir d' × (d'.items ≡ d.items ++ (item ∷ []))
unfolding add_item new_dir
add_item-IsDir d d' item v e = elim (Result-cases (content_size item.content)) [
  | inl (x, q) ↦ absurd (ground arith)
  | inr (n, q) ↦
      let after : FwCfg = record (set_known d file_dir (bytes (new_dir d item n))) {
        items = d.items ++ (item ∷ []);
      } in
      let is : after ≡ d' = ground arith in
      (
        subst IsDir is (
            get_elem?-set d.known_items file_dir (bytes (new_dir d item n))
              (get_elem?-lt d.known_items file_dir v)
            ∙ ap (λ b. some (bytes b)) (new_dir-entries d item n v q)),
        ap (λ x. x.items) (sym is),
      )
]

add_items-IsDir :
    (d d' : FwCfg) (items : List FwCfgItem)
    → IsDir d
    → add_items d items ≡ ok d'
    → IsDir d' × (d'.items ≡ d.items ++ items)
unfolding add_items
add_items-IsDir d d' [] v e =
    let is : d ≡ d' = ok_inj d d' e in
    (subst IsDir is v, ap (λ x. x.items) (sym is) ∙ sym (append-nil d.items))
add_items-IsDir d d' (i ∷ items) v e = elim (Result-cases (add_item d i)) [
  | inl (x, q) ↦ absurd (ground arith)
  | inr (d₁, q) ↦
      let (v₁, added) = add_item-IsDir d d₁ i v q in
      let (v₂, rest) = add_items-IsDir d₁ d' items v₁ (ground arith) in
      (v₂, rest ∙ ap (λ xs. xs ++ items) added ∙ append_assoc d.items (i ∷ []) items)
]

-- A device made with any items holds them, and its directory is their count and one entry for each,
-- in order: size, selector (which counts up from 0x20), two zeros and the name in 56 bytes.
pub new-IsDir :
    (items : List FwCfgItem) (d : FwCfg) → new items ≡ ok d → IsDir d × (d.items ≡ items)
unfolding new
new-IsDir items d e = add_items-IsDir empty_device d items refl e
