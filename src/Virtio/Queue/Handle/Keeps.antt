-- ===== src/Virtio/Queue/Handle/Keeps.antt =====
-- What every run of a device's operation keeps, a call of `handle_desc` keeps.
use alioth.Base.{
  ℕ, zero, suc, ◌≡◌, ap, ◌∙◌, subst, inl, inr, Bool, true, false, Bool-cases, Option, none, some,
  Option-cases, Result, ok, err, Result-cases,
}
use alioth.Virtio.Queue.Memory.{DescChain}
use alioth.Virtio.Queue.Handle.{
  VirtQueue, Queue, Handled, Loop, Status, done, deferred_status, break_status, settle, take_chain,
  run, handle_desc, notify,
}

module _ {E Q Index S : Type 0} (v : VirtQueue E Q Index) (op : S → DescChain → S × Result E Status)
    (P : S → Type 0) (keeps : (s : S) (chain : DescChain) → P s → P (op s chain).0) where
  -- The state that a round leaves.
  abbrev Left : Result (Handled E Q Index S) (Loop Q Index S) → Type 0
  Left (ok l) = P l.op_state
  Left (err out) = P out.op_state

  settle-Left :
      (l : Loop Q Index S) (chain : DescChain) (s : S) (r : Result E Status)
      → P s
      → Left (settle v op l chain s r)
  unfolding settle
  settle-Left l chain s (err e) h = h
  settle-Left l chain s (ok break_status) h = h
  settle-Left l chain s (ok (done len)) h = h
  settle-Left l chain s (ok deferred_status) h = h

  abbrev Returned : Option (Handled E Q Index S) → Type 0
  Returned none = Unit {0}
  Returned (some out) = P out.op_state

  run-Returned :
      (fuel : ℕ) (outer : Bool) (l : Loop Q Index S)
      → P l.op_state
      → Returned (run v op fuel outer l)
  unfolding run
  run-Returned zero outer l h = tt
  run-Returned (suc fuel) true l h = elim (Bool-cases (v.desc_avail (l.queue.q) (l.queue.avail))) [
    | inl more ↦ rw (more, Returned, run) (run-Returned fuel false (notify v op false l) h)
    | inr less ↦ rw (less, Returned, run) h
  ]
  run-Returned (suc fuel) false l h =
      elim (Option-cases (v.get_avail (l.queue.q) (l.queue.avail))) [
        | inl q ↦ rw (q, Returned, run) tt
        | inr (r, q) ↦ elim (Result-cases r) [
          | inl (e, q') ↦ rw (q ∙ ap some q', Returned, run) h
          | inr (o, q') ↦ elim (Option-cases o) [
            | inl q₂ ↦
                rw (q ∙ ap some (q' ∙ ap ok q₂), Returned, run)
                  (run-Returned fuel true (notify v op true l) h)
            | inr (chain, q₂) ↦
                let left : Left (take_chain v op l chain) =
                  settle-Left l chain (op l.op_state chain).0 (op l.op_state chain).1
                    (keeps l.op_state chain h) in
                elim (Result-cases (take_chain v op l chain)) [
                  | inl (out, q₃) ↦
                      rw (q ∙ ap some (q' ∙ ap ok q₂), Returned, run)
                        (rw (q₃, Returned, run) (subst Left q₃ left))
                  | inr (l', q₃) ↦
                      rw (q ∙ ap some (q' ∙ ap ok q₂), Returned, run)
                        (rw (q₃, Returned, run) (run-Returned fuel false l' (subst Left q₃ left)))
                ]
          ]
        ]
      ]

  pub handle_desc-Keeps :
      (fuel : ℕ) (queue : Queue Q Index) (s : S) (out : Handled E Q Index S)
      → P s
      → handle_desc v op fuel queue s ≡ some out
      → P out.op_state
  unfolding handle_desc
  handle_desc-Keeps fuel queue s out h e =
      subst Returned e
        (run-Returned fuel true (record { queue = queue; op_state = s; send_irq = false }) h)
