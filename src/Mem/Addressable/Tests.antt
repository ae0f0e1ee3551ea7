-- ===== src/Mem/Addressable/Tests.antt =====
-- The theorems on addressable.rs at concrete vectors, and the cases of addressable_test.rs.
use alioth.Base.{ℕ, ◌+◌, ◌-◌, ◌^◌, ◌≤◌, ◌<◌, ◌≡◌, refl, ◌↔◌, [], ◌∷◌, none, some, ok, err, arith}
use alioth.Mem.Error.{overlap, exceeds_limit}
use alioth.Mem.Addressable.{SlotBackend, Addressable, add, remove, search, search_next}
use alioth.Mem.Addressable.Owner.{IsValid, Apart, owner, reaching, below_first}
use alioth.Mem.Addressable.Add.{slot, add-IsValid, add_iff, search-add}
use alioth.Mem.Addressable.Remove.{remove_lem}
use alioth.Mem.Addressable.Search.{search-eq-owner, search_next-eq-reaching}

-- A backend that is its size.
instance abbrev bytes : SlotBackend ℕ
bytes = record { size = λ n. n }

abbrev two : Addressable ℕ
two = record { slots = slot 0x1000 0x1000 ∷ slot 0x2000 0x2000 ∷ [] }

abbrev three : Addressable ℕ
three = record { slots = slot 0x1000 0x1000 ∷ slot 0x2000 0x2000 ∷ slot 0x5000 0x1000 ∷ [] }

two-IsValid : IsValid two
two-IsValid = omega arith

three-IsValid : IsValid three
three-IsValid = omega arith

two_and_last : add two 0x5000 0x1000 ≡ ok three
unfolding add
two_and_last = refl

start_taken : add three 0x1000 0x2000 ≡ err (overlap 0x1000 0x2fff 0x1000 0x1fff)
unfolding add
start_taken = refl

runs_into_next : add three 0x4000 0x1001 ≡ err (overlap 0x4000 0x5000 0x5000 0x5fff)
unfolding add
runs_into_next = refl

last_byte_taken : add three 0x3fff 0x1000 ≡ err (overlap 0x3fff 0x4ffe 0x2000 0x3fff)
unfolding add
last_byte_taken = refl

past_the_end : add three (2 ^ 64 - 1) 0x10 ≡ err (exceeds_limit (2 ^ 64 - 1) 0x10)
unfolding add
past_the_end = refl

inside_the_first : search three 0x1500 ≡ some (0x1000, 0x1000)
unfolding search
inside_the_first = refl

add-IsValid_example : IsValid three
add-IsValid_example = add-IsValid two 0x5000 0x1000 two-IsValid two_and_last

add_iff_example :
    ((m : Addressable ℕ) × (add two 0x5000 0x1000 ≡ ok m))
    ↔ ((0 < 0x1000) × (0x5000 + 0x1000 ≤ 2 ^ 64) × Apart (slot 0x5000 0x1000) two.slots)
add_iff_example = add_iff two 0x5000 0x1000 two-IsValid

search-add_example : search three 0x5fff ≡ some (0x5000, 0x1000)
search-add_example = search-add two 0x5000 0x1000 0x5fff two-IsValid two_and_last

taken_out : remove three 0x5000 ≡ ok (two, 0x1000)
unfolding remove
taken_out = refl

remove_lem_example :
    IsValid two × (search three 0x5000 ≡ some (0x5000, 0x1000)) × (search two 0x5800 ≡ none)
remove_lem_example = remove_lem three 0x5000 0x5800 0x1000 three-IsValid taken_out

search-eq-owner_example : search three 0x3fff ≡ some (0x2000, 0x2000)
unfolding owner
search-eq-owner_example = search-eq-owner three 0x3fff three-IsValid

search_next-eq-reaching_example : search_next three 0x4000 ≡ some (0x5000, 0x1000)
unfolding reaching below_first
search_next-eq-reaching_example = search_next-eq-reaching three 0x4000 three-IsValid
