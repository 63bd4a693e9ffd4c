-- ===== src/Data/Validity.antt =====
-- What QuickFix and the constructors of storage/data promise.
use webhook_broker.Base.{
  ℕ, ◌≤◌, ltb, take, false, some, length, ◌≡◌, ◌≢◌, refl, arith, length-take-le, Bool-cases, inl,
  inr, ◌⊎◌,
}
use webhook_broker.Data.Clocks.{is_zero}
use webhook_broker.Data.Stakeholders.{
  pull_consumer, push_consumer, consumer_type_of, consumer_type_text,
}
use webhook_broker.Data.Pauses.{DispatchPause, pause_quick_fix, max_dispatch_pause_reason_length}

-- A pause that QuickFix returns has a time and a reason of at most 1024 bytes, and a second QuickFix
-- at any time changes nothing and says so.
pub pause_quick_fix_fixed :
    (now later : ℕ) (p : DispatchPause)
    → now ≢ 0
    → let q = (pause_quick_fix now p).0 in
      (q.paused_at ≢ 0) × (length q.reason ≤ 1024) × (pause_quick_fix later q ≡ (q, false))
unfolding pause_quick_fix
pause_quick_fix_fixed now later p nonzero = elim (Bool-cases (is_zero p.paused_at)) [
  | inl unset ↦
      let set : is_zero now ≡ false = ground arith in
      elim (Bool-cases (ltb max_dispatch_pause_reason_length (length p.reason))) [
        | inl long ↦ rw (unset, long) (nonzero, fits, rw (set, within fits) refl)
        | inr short ↦ rw (unset, short) (nonzero, bounded short, rw (set, short) refl)
      ]
  | inr set ↦
      let timed : p.paused_at ≢ 0 = ground arith in
      elim (Bool-cases (ltb max_dispatch_pause_reason_length (length p.reason))) [
        | inl long ↦ rw (set, long) (timed, fits, rw (set, within fits) refl)
        | inr short ↦ rw (set, short) (timed, bounded short, rw (set, short) refl)
      ]
]
  where
    fits :
        length (take max_dispatch_pause_reason_length p.reason) ≤ max_dispatch_pause_reason_length
    fits = length-take-le max_dispatch_pause_reason_length p.reason

    within : {n m : ℕ} → m ≤ n → ltb n m ≡ false
    within le = ground arith

    bounded : {n m : ℕ} → ltb n m ≡ false → m ≤ n
    bounded short = ground arith

-- The text of a consumer's type is read back as that type.
pub consumer_type_of-consumer_type_text :
    (t : ℕ)
    → (t ≡ pull_consumer) ⊎ (t ≡ push_consumer)
    → consumer_type_of (consumer_type_text t) ≡ some t
unfolding consumer_type_of consumer_type_text
consumer_type_of-consumer_type_text t (inl e) = rw e refl
consumer_type_of-consumer_type_text t (inr e) = rw e refl
