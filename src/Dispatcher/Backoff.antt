-- ===== src/Dispatcher/Backoff.antt =====
-- dispatcher/msgdispatcher.go: computeEarliestDelta, and earliestDelta of dispatcher/worker.go.
-- A delay is a count of nanoseconds, and its product stays below 2 ^ 63. `none` is an index out of
-- range, which panics.
use webhook_broker.Base.{
  ℕ, suc, ◌+◌, ◌-◌, ◌*◌, ◌≤◌, ◌<◌, false, ◌==◌, ltb, if◌then◌else◌, Option, none, some, List, [],
  ◌∷◌, length, get_elem?, ◌≡◌, refl, arith, Bool-cases, inl, inr, ap, sym, ◌∙◌,
}
use mathlib.Core.Option

unfoldable pub compute_earliest_delta : ℕ → List ℕ → Option ℕ
compute_earliest_delta retry_attempt delays =
    if ltb retry_attempt (length delays)
    then if retry_attempt == 0 then none else get_elem? delays (retry_attempt - 1)
    else if length delays == 0
    then none
    else Option.map (λ last. ((retry_attempt - length delays) + 1) * last)
        (get_elem? delays (length delays - 1))

in_range : (delays : List ℕ) (i : ℕ) → i < length delays → (d : ℕ) × (get_elem? delays i ≡ some d)
in_range [] i h = absurd (omega arith)
in_range (d ∷ ds) Prim.Native.Nat.zero h = (d, refl)
in_range (d ∷ ds) (suc i) h = in_range ds i (omega arith)

beyond_lem :
    (r last : ℕ) (delays : List ℕ)
    → 1 ≤ length delays
    → length delays ≤ r
    → get_elem? delays (length delays - 1) ≡ some last
    → compute_earliest_delta r delays ≡ some (((r - length delays) + 1) * last)
unfolding compute_earliest_delta
beyond_lem r last delays configured beyond e =
    let past : ltb r (length delays) ≡ false = ground arith in
    let some_there : (length delays == 0) ≡ false = ground arith in rw (past, some_there, e) refl

-- An attempt from 1 to the number of the configured delays waits for the delay in its place.
pub compute_earliest_delta-within :
    (r : ℕ) (delays : List ℕ)
    → 1 ≤ r
    → r ≤ length delays
    → compute_earliest_delta r delays ≡ get_elem? delays (r - 1)
unfolding compute_earliest_delta
compute_earliest_delta-within r delays positive within =
    let (last, e) = in_range delays (length delays - 1) (omega arith) in
    elim (Bool-cases (ltb r (length delays))) [
      | inl before ↦ let nonzero : (r == 0) ≡ false = ground arith in rw (before, nonzero) refl
      | inr at_last ↦
          let last_one : r ≡ length delays = ground arith in
          let once : (r - length delays) + 1 ≡ 1 = omega arith in
          beyond_lem r last delays (omega arith) (omega arith) e
          ∙ ap some (ap (λ m. m * last) once ∙ omega arith)
          ∙ sym e
          ∙ ap (λ n. get_elem? delays (n - 1)) (sym last_one)
    ]

-- From the number of the configured delays on, each attempt waits for the last delay longer than the
-- attempt before it.
pub compute_earliest_delta-beyond :
    (r : ℕ) (delays : List ℕ)
    → 1 ≤ length delays
    → length delays ≤ r
    → (last before : ℕ) × (get_elem? delays (length delays - 1) ≡ some last)
      × (compute_earliest_delta r delays ≡ some before)
      × (compute_earliest_delta (suc r) delays ≡ some (before + last))
unfolding compute_earliest_delta
compute_earliest_delta-beyond r delays configured beyond =
    let (last, e) = in_range delays (length delays - 1) (omega arith) in
    let longer : (suc r - length delays) + 1 ≡ suc ((r - length delays) + 1) = omega arith in
    (
      last,
      ((r - length delays) + 1) * last,
      e,
      beyond_lem r last delays configured beyond e,
      beyond_lem (suc r) last delays configured (omega arith) e
          ∙ ap some (ap (λ m. m * last) longer ∙ omega arith),
    )
