-- ===== src/Virtio/Queue/Handle/Drained.antt =====
-- The loops of `handle_desc` of queue.rs end, and leave no chain behind.
use alioth.Base.{
  ℕ, zero, suc, ◌+◌, ◌≤◌, ◌≡◌, ◌≢◌, ◌⊎◌, inl, inr, refl, sym, subst, ap, ◌∙◌, Bool, true, false,
  Option, none, some, Result, ok, err, Bool-cases, Option-cases, Result-cases, arith,
}
use alioth.Virtio.Queue.Memory.{DescChain}
use alioth.Virtio.Queue.Handle.{
  VirtQueue, Status, done, deferred_status, break_status, Queue, Handled, Loop, push_used, finish,
  notify, take_chain, settle, run, handle_desc,
}

-- What a ring promises: `queued` chains wait from an index on, and neither giving chains back nor
-- switching notifications changes that.
pub record Laws {E Q Index : Type 0} (v : VirtQueue E Q Index) (IsValid : Q → Index → Type 0)
    (queued : Q → Index → ℕ) (notified : Q → Bool) : Type 0 where
  pub empty :
      (q : Q) (i : Index)
      → IsValid q i
      → v.get_avail q i ≡ some (ok none)
      → v.desc_avail q i ≡ false
  pub taken :
      (q : Q) (i : Index) (c : DescChain)
      → IsValid q i
      → v.get_avail q i ≡ some (ok (some c))
      → IsValid q (v.index_add q i c.delta)
        × (suc (queued q (v.index_add q i c.delta)) ≤ queued q i)
  pub used_keeps :
      (q : Q) (u i : Index) (id len delta : ℕ)
      → IsValid q i
      → IsValid (v.set_used q u id len) i
        × (queued (v.set_used q u id len) i ≡ queued q i)
        × (v.index_add (v.set_used q u id len) i delta ≡ v.index_add q i delta)
  pub notify_keeps :
      (q : Q) (i : Index) (b : Bool)
      → IsValid q i
      → IsValid (v.enable_notification q b) i
        × (queued (v.enable_notification q b) i ≡ queued q i)
        × (v.desc_avail (v.enable_notification q b) i ≡ v.desc_avail q i)
  pub notify_sets : (q : Q) (b : Bool) → notified (v.enable_notification q b) ≡ b

Status-cases :
    (s : Status) → ((len : ℕ) × (s ≡ done len)) ⊎ (s ≡ deferred_status) ⊎ (s ≡ break_status)
Status-cases (done len) = inl (len, refl)
Status-cases deferred_status = inr (inl refl)
Status-cases break_status = inr (inr refl)

module _ {E Q Index S : Type 0} (v : VirtQueue E Q Index) (IsValid : Q → Index → Type 0)
    (queued : Q → Index → ℕ) (notified : Q → Bool) (laws : Laws v IsValid queued notified)
    (op : S → DescChain → S × Result E Status)
    (never : (s : S) (c : DescChain) → (op s c).1 ≢ ok break_status) where
  abbrev left : Loop Q Index S → ℕ
  left l = queued (l.queue.q) (l.queue.avail)

  abbrev Fine : Loop Q Index S → Type 0
  Fine l = IsValid (l.queue.q) (l.queue.avail)

  -- A call that returns well leaves no chain, and notifications on.
  abbrev pub Drained : Handled E Q Index S → Type 0
  Drained out =
      out.ret ≡ ok tt
      → (v.desc_avail (out.queue.q) (out.queue.avail) ≡ false) × (notified (out.queue.q) ≡ true)

  -- The call ends with an error of the operation, or the loop goes on with a chain less.
  abbrev Settled : Loop Q Index S → Result (Handled E Q Index S) (Loop Q Index S) → Type 0
  Settled l (err out) = (e : E) × (out.ret ≡ err e)
  Settled l (ok l') = Fine l' × (suc (left l') ≤ left l)

  settle_lem :
      (l : Loop Q Index S) (c : DescChain) (s : S) (r : Result E Status)
      → r ≢ ok break_status
      → Fine l
      → v.get_avail (l.queue.q) (l.queue.avail) ≡ some (ok (some c))
      → Settled l (settle v op l c s r)
  unfolding settle push_used
  settle_lem l c s (err e) sound fine got = (e, refl)
  settle_lem l c s (ok break_status) sound fine got = absurd (sound refl)
  settle_lem l c s (ok deferred_status) sound fine got =
      laws.taken (l.queue.q) (l.queue.avail) c fine got
  settle_lem l c s (ok (done len)) sound fine got =
      let i = v.index_add (l.queue.q) (l.queue.avail) c.delta in
      let (valid, less) = laws.taken (l.queue.q) (l.queue.avail) c fine got in
      let (valid', same, moved) = laws.used_keeps (l.queue.q) (l.queue.used) i c.id len 0 valid in
      let moves =
        (laws.used_keeps (l.queue.q) (l.queue.used) (l.queue.avail) c.id len c.delta fine).2 in
      rw moves (valid', omega arith)

  -- What is left to prove of a call.
  abbrev Ends : Option (Handled E Q Index S) → Type 0
  Ends r = (out : Handled E Q Index S) × (r ≡ some out) × Drained out

  outer-Ends :
      (fuel : ℕ) (l : Loop Q Index S)
      → v.desc_avail (l.queue.q) (l.queue.avail) ≡ false
      → notified (l.queue.q) ≡ true
      → Ends (run v op (suc fuel) true l)
  unfolding run
  outer-Ends fuel l none_left on =
      (finish v op l (ok tt), rw (none_left, run) refl, λ e. (none_left, on))

  after :
      (fuel : ℕ) (l : Loop Q Index S) (r : Result (Handled E Q Index S) (Loop Q Index S))
      → Settled l r
      → ((l' : Loop Q Index S) → Fine l' → suc (left l') ≤ left l → Ends (run v op fuel false l'))
      → Ends (elim r [ err out ↦ some out | ok l' ↦ run v op fuel false l' ])
  after fuel l (err out) (e, bad) next = (out, refl, λ good. absurd cc)
  after fuel l (ok l') (fine, less) next = next l' fine less

  run_empty :
      (fuel : ℕ) (l : Loop Q Index S)
      → v.get_avail (l.queue.q) (l.queue.avail) ≡ some (ok none)
      → run v op (suc fuel) false l ≡ run v op fuel true (notify v op true l)
  unfolding run
  run_empty fuel l got = rw (got, run) refl

  run_chain :
      (fuel : ℕ) (l : Loop Q Index S) (c : DescChain)
      → v.get_avail (l.queue.q) (l.queue.avail) ≡ some (ok (some c))
      → run v op (suc fuel) false l
        ≡ elim (take_chain v op l c) [ err out ↦ some out | ok l' ↦ run v op fuel false l' ]
  unfolding run
  run_chain fuel l c got = rw (got, run) refl

  run_outer :
      (fuel : ℕ) (l : Loop Q Index S)
      → v.desc_avail (l.queue.q) (l.queue.avail) ≡ true
      → run v op (suc fuel) true l ≡ run v op fuel false (notify v op false l)
  unfolding run
  run_outer fuel l there = rw (there, run) refl

  failed :
      (fuel : ℕ) (l : Loop Q Index S) (e : E)
      → v.get_avail (l.queue.q) (l.queue.avail) ≡ some (err e)
      → Ends (run v op (suc fuel) false l)
  unfolding run
  failed fuel l e got = (
    record { queue = l.queue; op_state = l.op_state; irq = false; ret = err e },
    rw (got, run) refl,
    λ good. absurd cc,
  )

  -- The inner loop comes to an end; each round but the last two takes a chain.
  inner-Ends :
      (fuel : ℕ) (l : Loop Q Index S)
      → ((q : Q) (i : Index) → IsValid q i → v.get_avail q i ≢ none)
      → Fine l
      → left l + 2 ≤ fuel
      → Ends (run v op fuel false l)
  inner-Ends zero l returns fine enough = absurd (omega arith)
  inner-Ends (suc zero) l returns fine enough = absurd (omega arith)
  inner-Ends (suc (suc fuel)) l returns fine enough =
      elim (Option-cases (v.get_avail (l.queue.q) (l.queue.avail))) [
        | inl stuck ↦ absurd (returns (l.queue.q) (l.queue.avail) fine stuck)
        | inr (r, got) ↦ elim (Result-cases r) [
          | inl (e, bad) ↦ failed (suc fuel) l e (got ∙ ap (λ x. some x) bad)
          | inr (o, good) ↦ elim (Option-cases o) [
            | inl nothing ↦
                let is = got ∙ ap (λ x. some x) (good ∙ ap (λ x. ok x) nothing) in
                let kept = laws.notify_keeps (l.queue.q) (l.queue.avail) true fine in
                let gone = laws.empty (l.queue.q) (l.queue.avail) fine is in
                subst Ends (sym (run_empty (suc fuel) l is)) (
                  outer-Ends fuel (notify v op true l) (kept.2 ∙ gone)
                    (laws.notify_sets (l.queue.q) true))
            | inr (c, chain) ↦
                let is = got ∙ ap (λ x. some x) (good ∙ ap (λ x. ok x) chain) in
                subst Ends (sym (run_chain (suc fuel) l c is)) (
                  after (suc fuel) l (take_chain v op l c)
                    (settle_lem l c (op l.op_state c).0 (op l.op_state c).1 (never l.op_state c)
                      fine is)
                    (λ l' fine' less. inner-Ends (suc fuel) l' returns fine' (omega arith)))
          ]
        ]
      ]

  -- On a ring that keeps its promises and on which, where it is valid, the walks end, with an
  -- operation that never breaks off and notifications on, as many rounds as chains are queued and
  -- three more are enough for `handle_desc` to return; where it returns well, no chain is available
  -- and notifications are on again.
  pub handle_desc_lem :
      (fuel : ℕ) (u : Queue Q Index) (s : S)
      → ((q : Q) (i : Index) → IsValid q i → v.get_avail q i ≢ none)
      → IsValid u.q u.avail
      → notified u.q ≡ true
      → queued u.q u.avail + 3 ≤ fuel
      → (out : Handled E Q Index S) × (handle_desc v op fuel u s ≡ some out)
        × (out.ret ≡ ok tt
            → (v.desc_avail (out.queue.q) (out.queue.avail) ≡ false)
              × (notified (out.queue.q) ≡ true))
  unfolding handle_desc
  handle_desc_lem zero u s returns valid on enough = absurd (omega arith)
  handle_desc_lem (suc fuel) u s returns valid on enough =
      let l : Loop Q Index S = record { queue = u; op_state = s; send_irq = false } in
      let (valid', same, looks) = laws.notify_keeps u.q u.avail false valid in
      elim (Bool-cases (v.desc_avail u.q u.avail)) [
        | inr nothing ↦ outer-Ends fuel l nothing on
        | inl there ↦
            subst Ends (sym (run_outer fuel l there))
              (inner-Ends fuel (notify v op false l) returns valid' (omega arith))
      ]
