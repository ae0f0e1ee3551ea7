-- ===== src/Virtio/Queue/Handle.antt =====
-- `Queue` of alioth/src/virtio/queue/queue.rs: how a device takes chains from a ring and gives them
-- back. The ring is behind the interface `VirtQueue`, and the device's operation on a chain is a
-- function with a state of its own, which also holds what it does to the slices of a chain. The
-- loops have no bound in the source, so they take fuel.
pub mod Drained
pub mod Rings
pub mod SplitLaws
pub mod SplitReturns
pub mod Keeps
mod Tests
use alioth.Base.{
  ℕ, zero, suc, Bool, true, false, ◌||◌, List, [], ◌∷◌, Option, none, some, Result, ok, err, ◌==◌,
  if◌then◌else◌,
}
use alioth.Virtio.Queue.Memory.{DescChain}

-- The trait `VirtQueue`. `none` of `get_avail` is a walk that does not end.
pub record VirtQueue (E Q Index : Type 0) : Type 0 where
  pub init_index : Index
  pub desc_avail : Q → Index → Bool
  pub get_avail : Q → Index → Option (Result E (Option DescChain))
  pub set_used : Q → Index → ℕ → ℕ → Q
  pub enable_notification : Q → Bool → Q
  pub interrupt_enabled : Q → Index → ℕ → Bool
  pub index_add : Q → Index → ℕ → Index

pub data Status : Type 0 where
  done : (len : ℕ) → Status
  deferred_status : Status
  break_status : Status

-- `deferred` is a map by id, kept as a list in which an id stands once.
pub record Queue (Q Index : Type 0) : Type 0 where
  pub q : Q
  pub avail : Index
  pub used : Index
  pub deferred : List (ℕ × DescChain)

-- `HashMap::insert` and `HashMap::remove`.
abbrev pub delete : ℕ → List (ℕ × DescChain) → List (ℕ × DescChain)
delete id [] = []
delete id ((k, c) ∷ cs) = let rest = delete id cs in if k == id then rest else (k, c) ∷ rest

abbrev pub find : ℕ → List (ℕ × DescChain) → Option DescChain
find id [] = none
find id ((k, c) ∷ cs) = let rest = find id cs in if k == id then some c else rest

-- What a call leaves: the queue, the state of the operation, whether the driver is interrupted, and
-- what the call returns.
pub record Handled (E Q Index S : Type 0) : Type 0 where
  pub queue : Queue Q Index
  pub op_state : S
  pub irq : Bool
  pub ret : Result E (Unit {0})

-- The state in the loop.
pub record Loop (Q Index S : Type 0) : Type 0 where
  pub queue : Queue Q Index
  pub op_state : S
  pub send_irq : Bool

module _ {E Q Index : Type 0} (v : VirtQueue E Q Index) where
  unfoldable pub new : Q → Queue Q Index
  new q = record { q = q; avail = v.init_index; used = v.init_index; deferred = [] }

  unfoldable pub push_used : Queue Q Index → DescChain → ℕ → Queue Q Index
  push_used u chain len = record u {
    q = v.set_used u.q u.used chain.id len;
    used = v.index_add (v.set_used u.q u.used chain.id len) u.used chain.delta;
  }

  unfoldable pub handle_deferred :
      {S : Type 0}
      → Queue Q Index
      → S
      → ℕ
      → (S → DescChain → S × Result E ℕ)
      → Result ℕ (Handled E Q Index S)
  unfolding push_used
  handle_deferred u s id op = elim (find id u.deferred) [
    | none ↦ err id
    | some chain ↦
        let rest = record u { deferred = delete id u.deferred } in
        let (s', r) = op s chain in
        elim r [
          | err e ↦ ok (record { queue = rest; op_state = s'; irq = false; ret = err e })
          | ok len ↦
              let u' = push_used rest chain len in
              ok (record {
                queue = u';
                op_state = s';
                irq = v.interrupt_enabled u'.q u'.used chain.delta;
                ret = ok tt;
              })
        ]
  ]

  module _ {S : Type 0} (op : S → DescChain → S × Result E Status) where
    abbrev pub finish : Loop Q Index S → Result E (Unit {0}) → Handled E Q Index S
    finish l r = record { queue = l.queue; op_state = l.op_state; irq = l.send_irq; ret = r }

    abbrev pub notify : Bool → Loop Q Index S → Loop Q Index S
    notify b l = record l { queue = record (l.queue) { q = v.enable_notification (l.queue.q) b } }

    abbrev pub advance : ℕ → Loop Q Index S → Loop Q Index S
    advance delta l = record l {
      queue = record (l.queue) { avail = v.index_add (l.queue.q) (l.queue.avail) delta };
    }

    -- What follows the operation on a chain, by its state and its result: the loop goes on, or the
    -- call ends.
    unfoldable pub settle :
        Loop Q Index S
        → DescChain
        → S
        → Result E Status
        → Result (Handled E Q Index S) (Loop Q Index S)
    unfolding push_used
    settle l chain s (err e) = err (finish (notify true (record l { op_state = s })) (err e))
    settle l chain s (ok break_status) = err (finish (record l { op_state = s }) (ok tt))
    settle l chain s (ok (done len)) =
        let u = push_used l.queue chain len in
        ok (
          advance chain.delta (record {
            queue = u;
            op_state = s;
            send_irq = l.send_irq || v.interrupt_enabled u.q u.used chain.delta;
          }))
    settle l chain s (ok deferred_status) =
        let u = record (l.queue) {
          deferred = (chain.id, chain) ∷ delete chain.id l.queue.deferred;
        } in
        ok (advance chain.delta (record l { queue = u; op_state = s }))

    abbrev pub take_chain :
        Loop Q Index S → DescChain → Result (Handled E Q Index S) (Loop Q Index S)
    take_chain l chain = settle l chain (op l.op_state chain).0 (op l.op_state chain).1

    -- The loops of `handle_desc`: `true` is the outer one, `false` the inner one. An error of
    -- `get_avail` returns at once, without the interrupt.
    unfoldable pub run : ℕ → Bool → Loop Q Index S → Option (Handled E Q Index S)
    unfolding settle
    run zero outer l = none
    run (suc fuel) true l = elim (v.desc_avail (l.queue.q) (l.queue.avail)) [
      | false ↦ some (finish l (ok tt))
      | true ↦ run fuel false (notify false l)
    ]
    run (suc fuel) false l = elim (v.get_avail (l.queue.q) (l.queue.avail)) [
      | none ↦ none
      | some (err e) ↦
          some (record { queue = l.queue; op_state = l.op_state; irq = false; ret = err e })
      | some (ok none) ↦ run fuel true (notify true l)
      | some (ok (some chain)) ↦ elim (take_chain l chain) [
        | err out ↦ some out
        | ok l' ↦ run fuel false l'
      ]
    ]

    unfoldable pub handle_desc : ℕ → Queue Q Index → S → Option (Handled E Q Index S)
    unfolding run
    handle_desc fuel u s = run fuel true (record { queue = u; op_state = s; send_irq = false })
