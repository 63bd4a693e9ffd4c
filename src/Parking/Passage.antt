-- ===== src/Parking/Passage.antt =====
-- The channel of parking/handoff.go between Submit, the goroutines that receive from it and Stop. A
-- step of a run is one call or one reception; the mutex and the channel let no two of them overlap.
use mathlib.Core.List.{append_assoc, append-nil}
use webhook_broker.Base.{
  ◌+◌, ◌*◌, ◌≤◌, Bool, true, false, leb, Option, none, some, List, [], ◌∷◌, ◌++◌, length, ◌≡◌, sym,
  ap, ◌∙◌, subst, arith, inl, inr, ◌⊎◌, Bool-cases, All, length-append, List-cases,
}
use webhook_broker.Data.{DeliveryJob}
use webhook_broker.Parking.Handoff.{
  HandoffConfiguration, HandoffSender, at_least_one, new_handoff_sender, capacity, saturated,
  submit, stop_accepting,
}

-- What a goroutine's `range sender.pending` takes next.
unfoldable pub receive_batch : HandoffSender → HandoffSender × Option (List DeliveryJob)
receive_batch s = elim s.pending [
  | [] ↦ (s, none)
  | batch ∷ rest ↦ (record s { pending = rest }, some batch)
]

pub data HandoffStep : Type 0 where
  submits : List DeliveryJob → HandoffStep
  receives : HandoffStep
  stops : HandoffStep

-- A run: the batches that Submit took with true and those that were received, in order, and the
-- sender at each Submit that answered false.
pub record Passage : Type 0 where
  pub sender : HandoffSender
  pub accepted : List (List DeliveryJob)
  pub received : List (List DeliveryJob)
  pub refused_at : List HandoffSender

-- What Submit answered is added to what the rest of the run gives.
abbrev pub answered : HandoffSender → List DeliveryJob → Bool → Passage → Passage
answered s [] taken rest = rest
answered s (d ∷ ds) true rest = record rest { accepted = (d ∷ ds) ∷ rest.accepted }
answered s (d ∷ ds) false rest = record rest { refused_at = s ∷ rest.refused_at }

abbrev pub handed : Option (List DeliveryJob) → Passage → Passage
handed none rest = rest
handed (some batch) rest = record rest { received = batch ∷ rest.received }

unfoldable pub run_handoff : HandoffSender → List HandoffStep → Passage
unfolding submit receive_batch stop_accepting
run_handoff s [] = record { sender = s; accepted = []; received = []; refused_at = [] }
run_handoff s (submits batch ∷ steps) =
    let (t, taken) = submit s batch in answered s batch taken (run_handoff t steps)
run_handoff s (receives ∷ steps) =
    let (t, batch) = receive_batch s in handed batch (run_handoff t steps)
run_handoff s (stops ∷ steps) = run_handoff (stop_accepting s) steps

-- The sender is stopped, or no place of its channel is free.
abbrev pub MayRefuse : HandoffSender → Type 0
MayRefuse s = (s.closed ≡ true) ⊎ (capacity s ≤ length s.pending)

-- What a run that starts from a sender keeps.
abbrev InOrder : HandoffSender → Passage → Type 0
InOrder s out =
    (out.received ++ out.sender.pending ≡ s.pending ++ out.accepted)
    × (length out.sender.pending ≤ capacity s)
    × All MayRefuse out.refused_at

-- What Submit does with a batch that is not empty.
submit-cases :
    (s : HandoffSender) (d : DeliveryJob) (ds : List DeliveryJob)
    → ((submit s (d ∷ ds) ≡ (s, false)) × MayRefuse s)
      ⊎ ((submit s (d ∷ ds) ≡ (record s { pending = s.pending ++ (d ∷ ds) ∷ [] }, true))
          × (length s.pending + 1 ≤ capacity s))
unfolding submit saturated
submit-cases s d ds = elim (Bool-cases s.closed) [
  | inl stopped ↦ inl (ground arith, inl stopped)
  | inr running ↦ elim (Bool-cases (leb (capacity s) (length s.pending))) [
    | inl full ↦ inl (ground arith, inr (ground arith))
    | inr room ↦ inr (ground arith, ground arith)
  ]
]

-- A step through Submit keeps what the rest of the run does.
abbrev SubmitKeeps : HandoffSender → List DeliveryJob → Passage → HandoffSender × Bool → Type 0
SubmitKeeps s batch rest (t, taken) =
    (length t.pending ≤ capacity t → InOrder t rest) → InOrder s (answered s batch taken rest)

submit_kept :
    (s : HandoffSender) (batch : List DeliveryJob) (rest : Passage)
    → length s.pending ≤ capacity s
    → SubmitKeeps s batch rest (submit s batch)
unfolding submit
submit_kept s [] rest bounded = λ later. later bounded
submit_kept s (d ∷ ds) rest bounded = elim (submit-cases s d ds) [
  | inl (e, why) ↦
      subst (SubmitKeeps s (d ∷ ds) rest) (sym e)
        (λ later. let kept = later bounded in (kept.0, kept.1, (why, kept.2)))
  | inr (e, room) ↦ subst (SubmitKeeps s (d ∷ ds) rest) (sym e) (λ later.
      let kept = later (omega (arith, room, length-append s.pending ((d ∷ ds) ∷ []))) in
      (kept.0 ∙ append_assoc s.pending ((d ∷ ds) ∷ []) rest.accepted, kept.1, kept.2))
]

received_kept :
    (s t : HandoffSender) (batch : List DeliveryJob) (rest : Passage)
    → s ≡ record t { pending = batch ∷ t.pending }
    → length s.pending ≤ capacity s
    → (length t.pending ≤ capacity t → InOrder t rest)
    → InOrder s (handed (some batch) rest)
received_kept s t batch rest same bounded later =
    let places : capacity s ≡ capacity t = ap capacity same in
    let held : s.pending ≡ batch ∷ t.pending = ap (λ (u : HandoffSender). u.pending) same in
    let longer : length s.pending ≡ length t.pending + 1 = ap length held ∙ omega arith in
    let (order, few, why) = later (omega (arith, places, longer, bounded)) in
    (
      ap (λ l. batch ∷ l) order ∙ ap (λ l. l ++ rest.accepted) (sym held),
      omega (arith, places, few),
      why,
    )

-- The two ends of a channel that receives.
receive_batch-cases :
    (s : HandoffSender)
    → (receive_batch s ≡ (s, none))
      ⊎ ((batch : List DeliveryJob) × (t : HandoffSender) × (receive_batch s ≡ (t, some batch))
          × (s ≡ record t { pending = batch ∷ t.pending }))
unfolding receive_batch
receive_batch-cases s = elim (List-cases s.pending) [
  | inl e ↦ inl (ground arith)
  | inr (batch, rest, e) ↦ inr (batch, record s { pending = rest }, ground arith, ground arith)
]

run_handoff-InOrder :
    (s : HandoffSender) (steps : List HandoffStep)
    → length s.pending ≤ capacity s
    → InOrder s (run_handoff s steps)
unfolding run_handoff stop_accepting
run_handoff-InOrder s [] bounded = (sym (append-nil s.pending), bounded, tt)
run_handoff-InOrder s (submits batch ∷ steps) bounded =
    submit_kept s batch (run_handoff (submit s batch).0 steps) bounded
      (λ b. run_handoff-InOrder (submit s batch).0 steps b)
run_handoff-InOrder s (receives ∷ steps) bounded = elim (receive_batch-cases s) [
  | inl e ↦
      subst (λ (t, batch). InOrder s (handed batch (run_handoff t steps))) (sym e)
        (run_handoff-InOrder s steps bounded)
  | inr (batch, t, e, same) ↦
      subst (λ (u, b). InOrder s (handed b (run_handoff u steps))) (sym e)
        (received_kept s t batch (run_handoff t steps) same bounded
          (λ b. run_handoff-InOrder t steps b))
]
run_handoff-InOrder s (stops ∷ steps) bounded = run_handoff-InOrder (stop_accepting s) steps bounded

-- From a new sender on, whatever the order of Submit, receptions and Stop: the received batches, then
-- the waiting ones, are the batches, not empty, that Submit took, in its order; no more wait than the
-- channel has places; and Submit refused one only when it was stopped or no place was free.
pub run_handoff-in_order :
    (cfg : HandoffConfiguration) (steps : List HandoffStep)
    → let out = run_handoff (new_handoff_sender cfg) steps in
      (out.received ++ out.sender.pending ≡ out.accepted)
      × (length out.sender.pending ≤ at_least_one cfg.concurrency * 2)
      × All MayRefuse out.refused_at
unfolding new_handoff_sender
run_handoff-in_order cfg steps = run_handoff-InOrder (new_handoff_sender cfg) steps (omega arith)
