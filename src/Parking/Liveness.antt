-- ===== src/Parking/Liveness.antt =====
-- drainRoundRobin of parking/drainer.go: that it moves what it is given, and what a run leaves.
use webhook_broker.Base.{
  ℕ, zero, suc, ltb, String, Bool, true, false, ◌||◌, str_eq, some, List, [], ◌∷◌, ◌≡◌, ap, subst,
  ◌∙◌, arith, inl, inr, Bool-cases, eq_iff,
}
use webhook_broker.Storage.Tables.{count_where, effectively_paused}
use webhook_broker.Storage.Parking.{of_consumer, listed}
use webhook_broker.Parking.Handoff.{saturated}
use webhook_broker.Parking.Drainer.{
  Drainer, Surroundings, finished, remaining, run_returned, next_round, round, drain_round_robin,
}
use webhook_broker.Parking.Draining.{Drains-refl, visit_consumer-finished, visit_consumer-returned}
use webhook_broker.Parking.Rounds.{
  Visit-cases, visit, one_round, Later, Later-trans, visit-Later, round-Later, round-Later_next,
  round_state, Round-cases,
}

module _ (page_size lease : ℕ) (around : Surroundings) where
  -- drainRoundRobin, however it ends, only drains.
  pub drain_round_robin-Later :
      (fuel : ℕ) (ids : List String) (n : ℕ) (d d' : Drainer) (held : Bool)
      → drain_round_robin page_size lease around fuel ids n d ≡ some (held, d')
      → Later page_size lease around d d'
  unfolding drain_round_robin
  drain_round_robin-Later fuel [] n d d' held h =
      let same : d ≡ d' = ground arith in
      subst (Later page_size lease around d) same (Drains-refl d.tables, omega arith)
  drain_round_robin-Later zero (id ∷ ids) n d d' held h = absurd (ground arith)
  drain_round_robin-Later (suc fuel) (id ∷ ids) n d d' held h =
      elim (Round-cases page_size lease around (one_round page_size lease around (id ∷ ids) n d)) [
        | inl (kept, d1, e) ↦
            let same : d1 ≡ d' = ground arith in
            subst (Later page_size lease around d) same (
              subst (λ r. Later page_size lease around d (round_state page_size lease around r)) e
                (round-Later page_size lease around (id ∷ ids) n d))
        | inr (active, m, d1, e) ↦
            Later-trans page_size lease around d d1 d'
              (round-Later_next page_size lease around (id ∷ ids) active n m d d1 e)
              (drain_round_robin-Later fuel active m d1 d' held (ground arith))
      ]

  -- A round that ends the run with the lock has seen Stop or a saturated hand-off.
  round-returned :
      (ids : List String) (n : ℕ) (d d' : Drainer)
      → one_round page_size lease around ids n d ≡ run_returned true d'
      → (m : ℕ) × ((around.stopping m || saturated d'.handoff) ≡ true)
  unfolding round
  round-returned [] n d d' h = absurd (ground arith)
  round-returned (id ∷ ids) n d d' h = elim (Visit-cases (visit page_size lease around n id d)) [
    | inl (held, d1, e) ↦
        (n, visit_consumer-returned page_size lease around n id d d' (ground arith))
    | inr (inl (d1, e)) ↦ round-returned ids (suc n) d1 d' (ground arith)
    | inr (inr (d1, e)) ↦
        elim (Round-cases page_size lease around
          (one_round page_size lease around ids (suc n) d1)) [
            | inl (held, d2, e2) ↦ round-returned ids (suc n) d1 d' (ground arith)
            | inr (left, m, d2, e2) ↦ absurd (ground arith)
          ]
  ]

  module _ (id : String) (positive : ltb 0 page_size ≡ true) where
    -- A consumer that a round without errors leaves out has nothing parked, unless it is paused.
    round-left :
        (ids active : List String) (n n' : ℕ) (d d' : Drainer)
        → one_round page_size lease around ids n d ≡ next_round active n' d'
        → effectively_paused d.tables.dispatch_pause id ≡ false
        → d'.logged_errors ≡ d.logged_errors
        → listed ids id ≡ true
        → listed active id ≡ false
        → count_where (of_consumer id) d'.tables.job_parking ≡ 0
    unfolding round
    round-left [] active n n' d d' h free clean given over = absurd (ground arith)
    round-left (x ∷ ids) active n n' d d' h free clean given over =
        elim (Visit-cases (visit page_size lease around n x d)) [
          | inl (held, d1, e) ↦ absurd (ground arith)
          | inr (inl (d1, e)) ↦
              let first = visit-Later page_size lease around n x d (finished d1) e in
              let rest : one_round page_size lease around ids (suc n) d1 ≡ next_round active n' d' =
                ground arith in
              let later =
                round-Later_next page_size lease around ids active (suc n) n' d1 d' rest in
              elim (Bool-cases (str_eq x id)) [
                | inl same ↦
                    let here =
                      visit_consumer-finished page_size lease around n x d d1 positive
                        (ground (arith, eq_iff x id)) e (omega (arith, first.1, later.1, clean)) in
                    omega (
                      arith,
                      ap (λ i. count_where (of_consumer i) d1.tables.job_parking)
                          ((eq_iff x id).0 same),
                      here,
                      later.0.0 (of_consumer id),
                    )
                | inr other ↦
                    round-left ids active (suc n) n' d1 d' rest
                      (ap (λ p. effectively_paused p id) first.0.1 ∙ free)
                      (omega (arith, first.1, later.1, clean)) (ground arith) over
              ]
          | inr (inr (d1, e)) ↦
              let first = visit-Later page_size lease around n x d (remaining d1) e in
              elim (Round-cases page_size lease around
                (one_round page_size lease around ids (suc n) d1)) [
                  | inl (held, d2, e2) ↦ absurd (ground arith)
                  | inr (left, m, d2, e2) ↦
                      let rest : one_round page_size lease around ids (suc n) d1
                          ≡ next_round left n' d' =
                        ground arith in
                      let later =
                        round-Later_next page_size lease around ids left (suc n) n' d1 d' rest in
                      round-left ids left (suc n) n' d1 d' rest
                        (ap (λ p. effectively_paused p id) first.0.1 ∙ free)
                        (omega (arith, first.1, later.1, clean)) (ground arith) (ground arith)
                ]
        ]

    -- When drainRoundRobin returns and still holds the lock, Stop was not called, the hand-off is not
    -- saturated and no error was logged, no job of a consumer it was given is parked, unless the
    -- consumer is paused.
    pub drain_round_robin-drained :
        (fuel : ℕ) (ids : List String) (n : ℕ) (d d' : Drainer)
        → drain_round_robin page_size lease around fuel ids n d ≡ some (true, d')
        → ((m : ℕ) → around.stopping m ≡ false)
        → saturated d'.handoff ≡ false
        → d'.logged_errors ≡ d.logged_errors
        → effectively_paused d.tables.dispatch_pause id ≡ false
        → listed ids id ≡ true
        → count_where (of_consumer id) d'.tables.job_parking ≡ 0
    unfolding drain_round_robin
    drain_round_robin-drained fuel [] n d d' h goes room clean free given = absurd (ground arith)
    drain_round_robin-drained zero (x ∷ ids) n d d' h goes room clean free given =
        absurd (ground arith)
    drain_round_robin-drained (suc fuel) (x ∷ ids) n d d' h goes room clean free given =
        elim (Round-cases page_size lease around (one_round page_size lease around (x ∷ ids) n d)) [
          | inl (held, d1, e) ↦
              let (m, why) = round-returned (x ∷ ids) n d d' (ground arith) in
              absurd (ground (arith, goes m))
          | inr (active, m, d1, e) ↦
              let first = round-Later_next page_size lease around (x ∷ ids) active n m d d1 e in
              let rest : drain_round_robin page_size lease around fuel active m d1
                  ≡ some (true, d') =
                ground arith in
              let later = drain_round_robin-Later fuel active m d1 d' true rest in
              elim (Bool-cases (listed active id)) [
                | inl stays ↦
                    drain_round_robin-drained fuel active m d1 d' rest goes room
                      (omega (arith, first.1, later.1, clean))
                      (ap (λ p. effectively_paused p id) first.0.1 ∙ free) stays
                | inr over ↦ omega (
                  arith,
                  round-left (x ∷ ids) active n m d d1 e free
                      (omega (arith, first.1, later.1, clean)) given over,
                  later.0.0 (of_consumer id),
                )
              ]
        ]
