-- ===== src/Virtio/Queue/Packed/Interrupt.antt =====
-- When packed.rs interrupts the driver.
use alioth.Base.{subst, sym, ◌*◌, ℕ, ◌+◌, ◌-◌, ◌<◌, ◌≤◌, ◌≡◌, ◌↔◌, true, if◌then◌else◌, arith}
use alioth.Virtio.Queue.Packed.{
  PackedQueue, offset, wrap_counter, wrapping_add, wrapping_sub, in_window, bool_eq,
  interrupt_enabled, desc_event,
}
use alioth.Virtio.Queue.Packed.Index.{
  InRing, position, Leads, wrapping_add-position, wrapping_sub-position, position_inj,
  position_below,
}

-- How far the event lies behind `prev`, where it does so within a round.
distance : ℕ → ℕ → ℕ → ℕ
distance size event prev =
    (if bool_eq (wrap_counter event) (wrap_counter prev) then offset event else offset event + size)
    - offset prev

in_window_event :
    (size event prev delta : ℕ)
    → InRing size prev
    → InRing size event
    → delta ≤ size
    → in_window size event prev delta ≡ true
    → (k : ℕ) × (k < delta) × (event ≡ wrapping_add prev k size)
unfolding in_window wrapping_add distance
in_window_event size event prev delta p e h w =
    (distance size event prev, ground arith, ground arith)

event_in_window :
    (size event prev delta k : ℕ)
    → InRing size prev
    → delta ≤ size
    → k < delta
    → event ≡ wrapping_add prev k size
    → in_window size event prev delta ≡ true
unfolding in_window wrapping_add
event_in_window size event prev delta k p h lt e = rw e (ground arith)

-- At most `delta` positions, and at least one, lead from the event to the index.
abbrev pub Took : (size delta event index : ℕ) → Type 0
Took size delta event index = (j : ℕ) × (0 < j) × (j ≤ delta) × Leads size event j index

window-Took :
    (size event index delta k : ℕ)
    → InRing size index
    → InRing size event
    → delta ≤ size
    → k < delta
    → event ≡ wrapping_add (wrapping_sub index delta size) k size
    → Took size delta event index
window-Took size event index delta k r e h lt at =
    let prev = wrapping_sub index delta size in
    let (p, back) = wrapping_sub-position size index delta r h in
    let (on, forth) = wrapping_add-position size prev k p (omega arith) in
    (
      delta - k,
      omega arith,
      omega arith,
      shorter size prev event index delta k p e r lt back
          (subst (λ x. Leads size prev k x) (sym at) forth),
    )
  where
    shorter :
        (size prev event index delta k : ℕ)
        → InRing size prev
        → InRing size event
        → InRing size index
        → k < delta
        → Leads size prev delta index
        → Leads size prev k event
        → Leads size event (delta - k) index
    shorter size prev event index delta k p e r lt a b = ground arith

Took-window :
    (size event index delta : ℕ)
    → InRing size index
    → InRing size event
    → delta ≤ size
    → Took size delta event index
    → (k : ℕ) × (k < delta) × (event ≡ wrapping_add (wrapping_sub index delta size) k size)
Took-window size event index delta r e h (j, pos, le, at) =
    let prev = wrapping_sub index delta size in
    let (p, back) = wrapping_sub-position size index delta r h in
    let (on, forth) = wrapping_add-position size prev (delta - j) p (omega arith) in
    let x = wrapping_add prev (delta - j) size in
    (
      delta - j,
      omega arith,
      position_inj size event x e on (
          same size prev x event index delta j le (position_below size prev p)
            (position_below size x on) (position_below size event e) (position_below size index r)
            back forth at),
    )
  where
    same :
        (size prev x event index delta j : ℕ)
        → j ≤ delta
        → position size prev < 2 * size
        → position size x < 2 * size
        → position size event < 2 * size
        → position size index < 2 * size
        → Leads size prev delta index
        → Leads size prev (delta - j) x
        → Leads size event j index
        → position size event ≡ position size x
    same size prev x event index delta j le a b c d back forth at = ground arith

-- With event indices on and the driver asking for one, with both indices within a ring of at most
-- 2^15 descriptors and `delta` at most the size, the driver is interrupted exactly if the index that
-- it asked for is one of the `delta` positions before the given one. The positions count through two
-- rounds of the ring, of which the first has the wrap counter set.
pub interrupt_enabled_iff :
    (q : PackedQueue) (index delta : ℕ)
    → q.enable_event_idx ≡ true
    → q.interrupt.flag ≡ desc_event
    → InRing q.size index
    → InRing q.size q.interrupt.index
    → delta ≤ q.size
    → (interrupt_enabled q index delta ≡ true) ↔ Took q.size delta q.interrupt.index index
unfolding interrupt_enabled
interrupt_enabled_iff q index delta on asks r e h =
    let (p, back) = wrapping_sub-position q.size index delta r h in
    (
      λ w.
          let (k, lt, at) =
            in_window_event q.size q.interrupt.index (wrapping_sub index delta q.size) delta p e h
              (ground arith) in
          window-Took q.size q.interrupt.index index delta k r e h lt at,
      λ t.
          let (k, lt, at) = Took-window q.size q.interrupt.index index delta r e h t in
          ground (
            arith,
            event_in_window q.size q.interrupt.index (wrapping_sub index delta q.size) delta k p h
                lt at,
          ),
    )
