-- ===== src/Parking/Draining.antt =====
-- One visit of a consumer by the drain loop, parking/drainer.go: what it moves, and when it is over.
use webhook_broker.Base.{
  ℕ, suc, ◌≤◌, ◌<◌, ltb, String, Bool, true, false, ◌||◌, Option, none, some, ◌≡◌, refl, ap, sym,
  subst, ◌∙◌, arith, inl, inr, Bool-cases, Option-cases, ◌⊎◌,
}
use webhook_broker.Data.{Consumer}
use webhook_broker.Storage.Tables.{ParkedRow, Tables, LockRow, count_where, effectively_paused}
use webhook_broker.Storage.Transactions.{
  Database, transactional_operations, transactional_writes, run_ops, in_transaction_exec,
}
use webhook_broker.Storage.Locks.{renew_lock}
use webhook_broker.Storage.Parking.{drain_page, of_consumer}
use webhook_broker.Storage.Drained.{drain_page-parked, drain_page-fewer, drain_page-none}
use webhook_broker.Storage.Ownership.{owned, drain_page-owned}
use webhook_broker.Parking.Handoff.{saturated}
use webhook_broker.Parking.Drainer.{
  Drainer, Surroundings, Visit, returned, finished, remaining, served, hand_off, drain_for,
  visit_consumer, earliest_attempt,
}

abbrev any : ParkedRow → Bool
any r = true

-- How many rows are parked.
unfoldable pub parked : Tables → ℕ
unfolding count_where
parked t = count_where any t.job_parking

-- What a step of the drainer may change of the tables: nothing more is parked, no pause is touched and
-- each job has as many rows as before.
abbrev pub Drains : Tables → Tables → Type 0
Drains t t' =
    ((p : ParkedRow → Bool) → count_where p t'.job_parking ≤ count_where p t.job_parking)
    × (t'.dispatch_pause ≡ t.dispatch_pause)
    × ((k : String) → owned k t' ≡ owned k t)

pub Drains-refl : (t : Tables) → Drains t t
Drains-refl t = (λ p. omega arith, refl, λ k. refl)

pub Drains-trans : (t u v : Tables) → Drains t u → Drains u v → Drains t v
Drains-trans t u v a b = (λ p. omega (arith, a.0 p, b.0 p), b.1 ∙ a.1, λ k. b.2 k ∙ a.2 k)

-- RenewLock touches no other table.
renew_lock-others :
    (db : Database) (t : Tables) (now : ℕ) (l : Option LockRow)
    → let u = (renew_lock db t now l).0 in
      (u.job ≡ t.job) × (u.job_parking ≡ t.job_parking) × (u.dispatch_pause ≡ t.dispatch_pause)
unfolding renew_lock transactional_writes transactional_operations run_ops in_transaction_exec
renew_lock-others db t now none = (refl, refl, refl)
renew_lock-others db t now (some l) = ground arith

renew_lock-Drains :
    (db : Database) (t : Tables) (now : ℕ) (l : Option LockRow) → Drains t (renew_lock db t now l).0
unfolding owned
renew_lock-Drains db t now l =
    let same = renew_lock-others db t now l in
    (λ p. omega (arith, ap (count_where p) same.1), same.2, λ k. ground (arith, same.0, same.1))

drain_page-Drains :
    (db : Database) (consumer : String) (page_size now earliest : ℕ) (t : Tables)
    → Drains t (drain_page db consumer page_size now earliest t).0
drain_page-Drains db consumer page_size now earliest t = (
  λ p. (drain_page-parked t consumer page_size db now earliest p).0,
  (drain_page-parked t consumer page_size db now earliest any).1,
  λ k. drain_page-owned db consumer page_size now earliest t k,
)

abbrev pub state_of : Visit → Drainer
state_of (returned held d) = d
state_of (finished d) = d
state_of (remaining d) = d

module _ (page_size lease : ℕ) (around : Surroundings) where
  abbrev paged : ℕ → String → Consumer → Drainer → Tables
  paged n id c d =
      (drain_page (around.drain_db n) id page_size (around.now n)
        (earliest_attempt page_size lease around n c) d.tables).0

  abbrev renewed : ℕ → String → Consumer → Drainer → Tables
  renewed n id c d = (renew_lock (around.renew_db n) (paged n id c d) (around.now n) d.lock).0

  drain_for_tables :
      (n : ℕ) (id : String) (c : Consumer) (d : Drainer)
      → let v = state_of (drain_for page_size lease around n id c d) in
        ((v.tables ≡ paged n id c d) ⊎ (v.tables ≡ renewed n id c d))
        × (d.logged_errors ≤ v.logged_errors)
  unfolding drain_for hand_off
  drain_for_tables n id c d = ground arith

  drain_for-Drains :
      (n : ℕ) (id : String) (c : Consumer) (d : Drainer)
      → Drains d.tables (state_of (drain_for page_size lease around n id c d)).tables
  drain_for-Drains n id c d =
      let moved =
        drain_page-Drains (around.drain_db n) id page_size (around.now n)
          (earliest_attempt page_size lease around n c) d.tables in
      let kept = renew_lock-Drains (around.renew_db n) (paged n id c d) (around.now n) d.lock in
      elim (drain_for_tables n id c d).0 [
        | inl e ↦ subst (Drains d.tables) (sym e) moved
        | inr e ↦
            subst (Drains d.tables) (sym e)
              (Drains-trans d.tables (paged n id c d) (renewed n id c d) moved kept)
      ]

  abbrev visit : ℕ → String → Drainer → Visit
  visit = visit_consumer page_size lease around

  abbrev at_visit : ℕ → Drainer → Drainer
  at_visit n d = record d { handoff = served (around.taken n) d.handoff }

  -- The ways that a visit can go.
  visit_consumer_cases :
      (n : ℕ) (id : String) (d : Drainer)
      → ((visit n id d ≡ returned true (at_visit n d))
          × ((around.stopping n || saturated (at_visit n d).handoff) ≡ true))
        ⊎ (visit n id d ≡ finished (record (at_visit n d) { logged_errors = suc d.logged_errors }))
        ⊎ ((c : Consumer) × (visit n id d ≡ drain_for page_size lease around n id c (at_visit n d)))
  unfolding visit_consumer
  visit_consumer_cases n id d =
      elim (Bool-cases (around.stopping n || saturated (at_visit n d).handoff)) [
        | inl stops ↦ inl (ground arith, stops)
        | inr goes ↦ elim (Option-cases (around.consumers n id)) [
          | inl e ↦ inr (inl (ground arith))
          | inr (c, e) ↦ inr (inr (c, ground arith))
        ]
      ]

  -- A visit, however it ends, only drains, and takes back no logged error.
  pub visit_consumer-Drains :
      (n : ℕ) (id : String) (d : Drainer)
      → Drains d.tables (state_of (visit n id d)).tables
        × (d.logged_errors ≤ (state_of (visit n id d)).logged_errors)
  visit_consumer-Drains n id d = elim (visit_consumer_cases n id d) [
    | inl (e, stops) ↦ rw e (Drains-refl d.tables, omega arith)
    | inr (inl e) ↦ rw e (Drains-refl d.tables, omega arith)
    | inr (inr (c, e)) ↦
        rw e (drain_for-Drains n id c (at_visit n d), (drain_for_tables n id c (at_visit n d)).1)
  ]

  -- A consumer that stays for the next round has had a page moved.
  drain_for-remaining :
      (n : ℕ) (id : String) (c : Consumer) (d d' : Drainer)
      → drain_for page_size lease around n id c d ≡ remaining d'
      → parked d'.tables < parked d.tables
  unfolding drain_for hand_off parked
  drain_for-remaining n id c d d' h =
      let fewer =
        drain_page-fewer d.tables id page_size (around.drain_db n) (around.now n)
          (earliest_attempt page_size lease around n c) in
      let same = renew_lock-others (around.renew_db n) (paged n id c d) (around.now n) d.lock in
      ground (arith, fewer, same.1)

  pub visit_consumer-remaining :
      (n : ℕ) (id : String) (d d' : Drainer)
      → visit n id d ≡ remaining d'
      → parked d'.tables < parked d.tables
  visit_consumer-remaining n id d d' h = elim (visit_consumer_cases n id d) [
    | inl (e, stops) ↦ absurd (ground arith)
    | inr (inl e) ↦ absurd (ground arith)
    | inr (inr (c, e)) ↦ drain_for-remaining n id c (at_visit n d) d' (sym e ∙ h)
  ]

  -- A consumer that is left out without an error has nothing parked, unless it is paused.
  drain_for-finished :
      (n : ℕ) (id : String) (c : Consumer) (d d' : Drainer)
      → ltb 0 page_size ≡ true
      → effectively_paused d.tables.dispatch_pause id ≡ false
      → drain_for page_size lease around n id c d ≡ finished d'
      → d'.logged_errors ≡ d.logged_errors
      → count_where (of_consumer id) d'.tables.job_parking ≡ 0
  unfolding drain_for hand_off
  drain_for-finished n id c d d' positive free h clean =
      let none_left =
        drain_page-none d.tables id page_size (around.drain_db n) (around.now n)
          (earliest_attempt page_size lease around n c) positive free in
      ground (arith, none_left)

  pub visit_consumer-finished :
      (n : ℕ) (id : String) (d d' : Drainer)
      → ltb 0 page_size ≡ true
      → effectively_paused d.tables.dispatch_pause id ≡ false
      → visit n id d ≡ finished d'
      → d'.logged_errors ≡ d.logged_errors
      → count_where (of_consumer id) d'.tables.job_parking ≡ 0
  visit_consumer-finished n id d d' positive free h clean = elim (visit_consumer_cases n id d) [
    | inl (e, stops) ↦ absurd (ground arith)
    | inr (inl e) ↦ absurd (ground arith)
    | inr (inr (c, e)) ↦ drain_for-finished n id c (at_visit n d) d' positive free (sym e ∙ h) clean
  ]

  -- A visit that ends the run with the lock has seen Stop or a saturated hand-off.
  pub visit_consumer-returned :
      (n : ℕ) (id : String) (d d' : Drainer)
      → visit n id d ≡ returned true d'
      → (around.stopping n || saturated d'.handoff) ≡ true
  unfolding drain_for hand_off
  visit_consumer-returned n id d d' h = elim (visit_consumer_cases n id d) [
    | inl (e, stops) ↦ ground arith
    | inr (inl e) ↦ absurd (ground arith)
    | inr (inr (c, e)) ↦ absurd (ground arith)
  ]
