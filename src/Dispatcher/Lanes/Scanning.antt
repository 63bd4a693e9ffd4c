-- ===== src/Dispatcher/Lanes/Scanning.antt =====
-- The scan of tryNext over the ready list.
use mathlib.Core.List.{append-nil, append_assoc}
use webhook_broker.Base.{
  ℕ, zero, suc, ◌≤◌, ◌<◌, Bool, true, false, ◌&&◌, ◌||◌, not, ◌==◌, ltb, ◌≡◌, refl, sym, ap, ◌∙◌,
  inl, inr, arith, if◌then◌else◌, Option, none, some, List, [], ◌∷◌, ◌++◌, update, length, member,
  keep_if, Bool-cases, get_elem?, get_elem?-append, get_elem?-length, get_elem?-snoc,
}
use webhook_broker.Dispatcher.Lanes.State.{Lane, can_run}
use webhook_broker.Dispatcher.Lanes.Serve.{Scan, visit, scan, better, head_priority}

-- A lane without its mark.
abbrev pub unmarked : Lane → Lane
unmarked l = record l { ready = false }

-- The lanes that can run, in their order.
abbrev pub runnables : (ℕ → Lane) → List ℕ → List ℕ
runnables h l = keep_if (λ a. can_run (h a)) l

runnables-unmark :
    (h : ℕ → Lane) (a : ℕ) (l : List ℕ) → runnables (update h a (unmarked (h a))) l ≡ runnables h l
unfolding update
runnables-unmark h a [] = refl
runnables-unmark h a (b ∷ l) = ground (arith, runnables-unmark h a l)

pub scan-runnable :
    (l : List ℕ) (c : Scan) → (scan l c).runnable ≡ c.runnable ++ runnables c.lane_at l
unfolding scan visit
scan-runnable [] c = sym (append-nil c.runnable)
scan-runnable (a ∷ l) c = ground (
  arith,
  scan-runnable l (visit c a),
  runnables-unmark c.lane_at a l,
  append_assoc c.runnable (a ∷ []) (runnables c.lane_at l),
)

-- A lane loses its mark if it is met and cannot run.
abbrev pub unmark_if : Bool → Lane → Lane
unmark_if met l = if met && not (can_run l) then unmarked l else l

unmark_if-unmark_if : (p q : Bool) (l : Lane) → unmark_if p (unmark_if q l) ≡ unmark_if (q || p) l
unmark_if-unmark_if p true l = elim (Bool-cases (can_run l)) [
  | inl t ↦ simp t (ground arith)
  | inr f ↦ simp f (ground arith)
]
unmark_if-unmark_if p false l = refl

visit-lane_at : (c : Scan) (a b : ℕ) → (visit c a).lane_at b ≡ unmark_if (b == a) (c.lane_at b)
unfolding visit update
visit-lane_at c a b = elim (Bool-cases (b == a)) [
  | inl here ↦
      let e : b ≡ a = ground arith in
      rw e
        (elim (Bool-cases (can_run (c.lane_at a))) [ inl t ↦ ground arith | inr f ↦ ground arith ])
  | inr there ↦ elim (Bool-cases (can_run (c.lane_at a))) [
    | inl t ↦ rw (t, there)
    | inr f ↦ ground arith
  ]
]

-- The scan unmarks the lanes of the ready list that cannot run, and changes no other lane.
pub scan-lane_at :
    (b : ℕ) (l : List ℕ) (c : Scan) → (scan l c).lane_at b ≡ unmark_if (member b l) (c.lane_at b)
unfolding scan
scan-lane_at b [] c = refl
scan-lane_at b (a ∷ l) c =
    scan-lane_at b l (visit c a)
    ∙ (ap (unmark_if (member b l)) (visit-lane_at c a b)
        ∙ unmark_if-unmark_if (member b l) (b == a) (c.lane_at b))

-- The index and priority of the first lane of the highest priority `f` in a list.
abbrev pub Best : (ℕ → ℕ) → List ℕ → Option (ℕ × ℕ) → Type 0
Best f r none = r ≡ []
Best f r (some (i, p)) =
    (a : ℕ) × (get_elem? r i ≡ some a)
    × (f a ≡ p)
    × ((j b : ℕ) → get_elem? r j ≡ some b → (f b ≤ p) × (j < i → f b < p))

better-Best :
    (f : ℕ → ℕ) (r : List ℕ) (a : ℕ) (o : Option (ℕ × ℕ))
    → Best f r o
    → Best f (r ++ a ∷ []) (better (length r) (f a) o)
better-Best f r a none h = rw h (a, refl, refl, λ j b e. single j b e)
  where
    single : (j b : ℕ) → get_elem? (a ∷ []) j ≡ some b → (f b ≤ f a) × (j < 0 → f b < f a)
    single zero b e = let same : a ≡ b = ground arith in rw same (omega arith, λ lt. omega arith)
    single (suc j) b e = cc
better-Best f r a (some (i, p)) (b, at, prio, top) = elim (Bool-cases (ltb p (f a))) [
  | inl higher ↦ rw higher (
    a,
    get_elem?-length r a,
    refl,
    λ j c e. elim (get_elem?-snoc r a j c e) [
      | inl (old, lt) ↦ let t = top j c old in (ground arith, λ l. ground arith)
      | inr (last, same) ↦ rw (← same) (omega arith, λ l. omega arith)
    ],
  )
  | inr lower ↦ rw lower (
    b,
    (get_elem?-append r (a ∷ []) i b at).0,
    prio,
    λ j c e. elim (get_elem?-snoc r a j c e) [
      | inl (old, lt) ↦ top j c old
      | inr (last, same) ↦
          rw (← same) (ground arith, λ l. ground (arith, get_elem?-append r (a ∷ []) i b at))
    ],
  )
]

-- The priority of the job that a lane would run next.
abbrev pub next_priority : (ℕ → Lane) → ℕ → ℕ
next_priority h a = head_priority (h a).queue

visit-Best :
    (h : ℕ → Lane) (c : Scan) (a : ℕ)
    → ((b : ℕ) → (c.lane_at b).queue ≡ (h b).queue)
    → Best (next_priority h) c.runnable c.best
    → Best (next_priority h) (visit c a).runnable (visit c a).best
unfolding visit
visit-Best h c a same b = elim (Bool-cases (can_run (c.lane_at a))) [
  | inl t ↦ rw (t, ap head_priority (same a)) (better-Best (next_priority h) c.runnable a c.best b)
  | inr f ↦ rw f b
]

visit-queue : (c : Scan) (a b : ℕ) → ((visit c a).lane_at b).queue ≡ (c.lane_at b).queue
unfolding visit update
visit-queue c a b = ground arith

-- The scan finds the best of the lanes that it keeps.
pub scan-Best :
    (h : ℕ → Lane) (l : List ℕ) (c : Scan)
    → ((b : ℕ) → (c.lane_at b).queue ≡ (h b).queue)
    → Best (next_priority h) c.runnable c.best
    → Best (next_priority h) (scan l c).runnable (scan l c).best
unfolding scan
scan-Best h [] c same b = b
scan-Best h (a ∷ l) c same b =
    scan-Best h l (visit c a) (λ x. visit-queue c a x ∙ same x) (visit-Best h c a same b)
