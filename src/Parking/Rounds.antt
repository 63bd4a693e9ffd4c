-- ===== src/Parking/Rounds.antt =====
-- The rounds of drainRoundRobin and a whole run, parking/drainer.go: they end, and what they leave.
use webhook_broker.Base.{
  ℕ, zero, suc, ◌≤◌, ◌<◌, String, Bool, true, some, List, [], ◌∷◌, length, ◌≡◌, refl, ap, sym,
  subst, ◌∙◌, arith, inl, inr, ◌⊎◌,
}
use webhook_broker.Parking.Drainer.{
  Drainer, Surroundings, Visit, returned, finished, remaining, visit_consumer, Round, run_returned,
  next_round, keep_active, round, drain_round_robin,
}
use webhook_broker.Parking.Draining.{
  parked, Drains, Drains-refl, Drains-trans, state_of, visit_consumer-Drains,
  visit_consumer-remaining,
}

pub Visit-cases :
    (v : Visit)
    → ((held : Bool) × (d : Drainer) × (v ≡ returned held d))
      ⊎ ((d : Drainer) × (v ≡ finished d))
      ⊎ ((d : Drainer) × (v ≡ remaining d))
Visit-cases (returned held d) = inl (held, d, refl)
Visit-cases (finished d) = inr (inl (d, refl))
Visit-cases (remaining d) = inr (inr (d, refl))

module _ (page_size lease : ℕ) (around : Surroundings) where
  abbrev pub visit : ℕ → String → Drainer → Visit
  visit = visit_consumer page_size lease around

  abbrev pub Ended : Type 0
  Ended = Round page_size lease around

  abbrev pub round_state : Ended → Drainer
  round_state (run_returned held d) = d
  round_state (next_round ids n d) = d

  abbrev pub one_round : List String → ℕ → Drainer → Ended
  one_round = round page_size lease around

  keep_active_state :
      (id : String) (r : Ended)
      → round_state (keep_active page_size lease around id r) ≡ round_state r
  keep_active_state id (run_returned held d) = refl
  keep_active_state id (next_round ids n d) = refl

  abbrev pub Later : Drainer → Drainer → Type 0
  Later d d' = Drains d.tables d'.tables × (d.logged_errors ≤ d'.logged_errors)

  pub Later-trans : (a b c : Drainer) → Later a b → Later b c → Later a c
  Later-trans a b c p q = (Drains-trans a.tables b.tables c.tables p.0 q.0, omega (arith, p.1, q.1))

  pub visit-Later :
      (n : ℕ) (id : String) (d : Drainer) (v : Visit) → visit n id d ≡ v → Later d (state_of v)
  visit-Later n id d v e =
      subst (λ v. Later d (state_of v)) e (visit_consumer-Drains page_size lease around n id d)

  -- A round, however it ends, only drains.
  pub round-Later :
      (ids : List String) (n : ℕ) (d : Drainer) → Later d (round_state (one_round ids n d))
  unfolding round
  round-Later [] n d = (Drains-refl d.tables, omega arith)
  round-Later (id ∷ ids) n d = elim (Visit-cases (visit n id d)) [
    | inl (held, d', e) ↦ at_end d' (ground arith) (visit-Later n id d (returned held d') e)
    | inr (inl (d', e)) ↦ at_end (round_state (one_round ids (suc n) d')) (ground arith) (
        Later-trans d d' (round_state (one_round ids (suc n) d'))
          (visit-Later n id d (finished d') e) (round-Later ids (suc n) d'))
    | inr (inr (d', e)) ↦
        at_end (round_state (one_round ids (suc n) d'))
          (ap (λ v. round_state (ended v)) e ∙ keep_active_state id (one_round ids (suc n) d'))
          (Later-trans d d' (round_state (one_round ids (suc n) d'))
            (visit-Later n id d (remaining d') e) (round-Later ids (suc n) d'))
  ]
    where
      at_end :
          (d' : Drainer)
          → round_state (one_round (id ∷ ids) n d) ≡ d'
          → Later d d'
          → Later d (round_state (one_round (id ∷ ids) n d))
      at_end d' e l = subst (Later d) (sym e) l

      ended : Visit → Ended
      ended (returned held d') = run_returned held d'
      ended (finished d') = one_round ids (suc n) d'
      ended (remaining d') = keep_active page_size lease around id (one_round ids (suc n) d')

  pub round-Later_next :
      (ids active : List String) (n n' : ℕ) (d d' : Drainer)
      → one_round ids n d ≡ next_round active n' d'
      → Later d d'
  round-Later_next ids active n n' d d' h =
      subst (λ r. Later d (round_state r)) h (round-Later ids n d)

  pub Round-cases :
      (r : Ended)
      → ((held : Bool) × (d : Drainer) × (r ≡ run_returned held d))
        ⊎ ((ids : List String) × (n : ℕ) × (d : Drainer) × (r ≡ next_round ids n d))
  Round-cases (run_returned held d) = inl (held, d, refl)
  Round-cases (next_round ids n d) = inr (ids, n, d, refl)

  -- A round that is followed by another has moved a row, unless no consumer is left.
  round-next :
      (ids active : List String) (n n' : ℕ) (d d' : Drainer)
      → one_round ids n d ≡ next_round active n' d'
      → (length active ≡ 0) ⊎ (parked d'.tables < parked d.tables)
  unfolding round parked
  round-next [] active n n' d d' h = inl (ground arith)
  round-next (id ∷ ids) active n n' d d' h = elim (Visit-cases (visit n id d)) [
    | inl (held, d1, e) ↦ absurd (ground arith)
    | inr (inl (d1, e)) ↦
        let first = (visit-Later n id d (finished d1) e).0.0 (λ r. true) in
        elim (round-next ids active (suc n) n' d1 d' (ground arith)) [
          | inl none_left ↦ inl none_left
          | inr fewer ↦ inr (omega (arith, first, fewer))
        ]
    | inr (inr (d1, e)) ↦
        let moved = visit_consumer-remaining page_size lease around n id d d1 e in
        elim (Round-cases (one_round ids (suc n) d1)) [
          | inl (held, d2, e2) ↦ absurd (ground arith)
          | inr (left, m, d2, e2) ↦
              let later = (round-Later_next ids left (suc n) m d1 d2 e2).0.0 (λ r. true) in
              inr (ground arith)
        ]
  ]

  -- drainRoundRobin ends: as many rounds are enough as there are parked rows, and one more.
  pub drain_round_robin-ends :
      (fuel : ℕ) (ids : List String) (n : ℕ) (d : Drainer)
      → parked d.tables < fuel
      → (held : Bool) × (d' : Drainer) × (drain_round_robin page_size lease around fuel ids n d
          ≡ some (held, d'))
  unfolding drain_round_robin
  drain_round_robin-ends fuel [] n d enough = (true, d, refl)
  drain_round_robin-ends zero (id ∷ ids) n d enough = absurd (omega (arith, enough))
  drain_round_robin-ends (suc fuel) (id ∷ ids) n d enough =
      elim (Round-cases (one_round (id ∷ ids) n d)) [
        | inl (held, d', e) ↦ (held, d', ground arith)
        | inr ([], m, d', e) ↦ (true, d', ground arith)
        | inr (next ∷ active, m, d', e) ↦ elim (round-next (id ∷ ids) (next ∷ active) n m d d' e) [
          | inl z ↦ absurd (omega (arith, z))
          | inr fewer ↦
              let (held, d2, done) =
                drain_round_robin-ends fuel (next ∷ active) m d' (omega (arith, fewer, enough)) in
              (held, d2, ground (arith, done))
        ]
      ]
