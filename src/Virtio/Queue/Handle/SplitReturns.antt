-- ===== src/Virtio/Queue/Handle/SplitReturns.antt =====
-- A split ring on which every walk ends stays one while the device works on it.
use alioth.Base.{
  ℕ, zero, suc, ◌≡◌, ◌≢◌, refl, sym, ◌∙◌, Bool, List, Option, none, Bool-cases, Option-cases,
  Result-cases, inl, inr, get_elem?, [], arith,
}
use alioth.Mem.Mapped.{Ram, Host}
use alioth.Virtio.Queue.Memory.{Buffers}
use alioth.Virtio.Queue.Flag.{contains, next}
use alioth.Virtio.Queue.Split.{
  SplitQueue, Header, UsedElem, get_desc, desc_avail, wrapped_index, set_used, set_used_index,
  enable_notification,
}
use alioth.Virtio.Queue.Split.Avail.{get_avail, walk, push_desc}
use alioth.Virtio.Queue.Split.Index.{InRing, queued}
use alioth.Virtio.Queue.Handle.Rings.{split}
use alioth.Virtio.Queue.Handle.Drained.{Laws}
use alioth.Virtio.Queue.Handle.SplitLaws.{notified, split-Laws}

-- The ring with what the device writes to it changed.
abbrev device_part : SplitQueue → List UsedElem → Header → Option ℕ → SplitQueue
device_part q ring hdr event = record q { used_ring = ring; used_hdr = hdr; avail_event = event }

walk_frame :
    (fuel : ℕ) (q : SplitQueue) (ring : List UsedElem) (hdr : Header) (event : Option ℕ) (m : Ram)
    (h : Host) (id : ℕ) (b : Buffers)
    → walk fuel (device_part q ring hdr event) m h id b ≡ walk fuel q m h id b
unfolding walk get_desc
walk_frame zero q ring hdr event m h id b = refl
walk_frame (suc fuel) q ring hdr event m h id b = elim (Result-cases (get_desc q id)) [
  | inl (e, bad) ↦ ground arith
  | inr (d, good) ↦ elim (Option-cases (push_desc fuel m h d b)) [
    | inl out ↦ ground arith
    | inr (r, p) ↦ elim (Result-cases r) [
      | inl (e, bad) ↦ ground arith
      | inr (b', fine) ↦ elim (Bool-cases (contains d.flag next)) [
        | inl more ↦ ground (arith, walk_frame fuel q ring hdr event m h d.next b')
        | inr last ↦ ground arith
      ]
    ]
  ]
]

get_avail_frame :
    (rounds : ℕ) (q : SplitQueue) (ring : List UsedElem) (hdr : Header) (event : Option ℕ) (m : Ram)
    (h : Host) (i : ℕ)
    → get_avail rounds (device_part q ring hdr event) m h i ≡ get_avail rounds q m h i
unfolding get_avail desc_avail wrapped_index
get_avail_frame rounds q ring hdr event m h i =
    let nothing : Buffers = record { readable = []; writable = [] } in
    elim (Bool-cases (desc_avail q i)) [
      | inr off ↦ ground arith
      | inl on ↦ elim (Option-cases (get_elem? q.avail_ring (wrapped_index q i))) [
        | inl out ↦ ground arith
        | inr (head, at) ↦ ground (arith, walk_frame rounds q ring hdr event m h head nothing)
      ]
    ]

module _ (rounds : ℕ) (m : Ram) (h : Host) where
  -- The indices lie in the ring, and no walk along it runs out of rounds or of the ring.
  abbrev pub Valid : SplitQueue → ℕ → Type 0
  Valid q i = InRing q i × ((j : ℕ) → get_avail rounds q m h j ≢ none)

  returns_frame :
      (q : SplitQueue) (ring : List UsedElem) (hdr : Header) (event : Option ℕ)
      → ((j : ℕ) → get_avail rounds q m h j ≢ none)
      → (j : ℕ) → get_avail rounds (device_part q ring hdr event) m h j ≢ none
  returns_frame q ring hdr event r j e =
      r j (sym (get_avail_frame rounds q ring hdr event m h j) ∙ e)

  set_used_returns :
      (q : SplitQueue) (u id len : ℕ)
      → ((j : ℕ) → get_avail rounds q m h j ≢ none)
      → (j : ℕ) → get_avail rounds (set_used q u id len) m h j ≢ none
  unfolding set_used set_used_index
  set_used_returns q u id len r = returns_frame q _ _ _ r

  notify_returns :
      (q : SplitQueue) (b : Bool)
      → ((j : ℕ) → get_avail rounds q m h j ≢ none)
      → (j : ℕ) → get_avail rounds (enable_notification q b) m h j ≢ none
  unfolding enable_notification
  notify_returns q b r = elim (Option-cases q.avail_event) [
    | inl off ↦ rw (off, enable_notification) (returns_frame q _ _ _ r)
    | inr (event, on) ↦ rw (on, enable_notification) (returns_frame q _ _ _ r)
  ]

  pub split_returns-Laws : Laws (split rounds m h) Valid queued notified
  split_returns-Laws =
      let laws = split-Laws rounds m h in
      record {
        empty = λ q i valid e. laws.empty q i valid.0 e;
        taken = λ q i c valid e.
            let (next, less) = laws.taken q i c valid.0 e in ((next, valid.1), less);
        used_keeps = λ q u i id len delta valid.
            let (kept, same, moves) = laws.used_keeps q u i id len delta valid.0 in
            ((kept, set_used_returns q u id len valid.1), same, moves);
        notify_keeps = λ q i b valid.
            let (kept, same, looks) = laws.notify_keeps q i b valid.0 in
            ((kept, notify_returns q b valid.1), same, looks);
        notify_sets = laws.notify_sets;
      }
