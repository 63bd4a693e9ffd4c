-- ===== src/Dispatcher/Lanes/Invariant.antt =====
-- What holds of the laneScheduler between two calls, and the moves on one lane that keep it.
use webhook_broker.Base.{
  ℕ, ◌≤◌, ◌<◌, String, Bool, true, refl, false, ◌&&◌, not, ◌==◌, ◌≡◌, ◌≢◌, refl, ◌⊎◌, inl, inr,
  arith, some, [], ◌∷◌, Map, lookup, update, member, Distinct, member-append, Distinct-snoc,
  Bool-cases,
}
use webhook_broker.Data.{DeliveryJob}
use webhook_broker.Dispatcher.Queue.{HeapPackage}
use webhook_broker.Dispatcher.Lanes.State.{
  Lane, Scheduler, Held, Metrics, can_run, put_lane, mark_ready, signal,
}

module _ (heap : HeapPackage) where
  -- One lane: its limit is kept, and its queue is a heap.
  pub record LaneOk (l : Lane) : Type 0 where
    pub within : (l.limit ≡ 0) ⊎ (l.inflight ≤ l.limit)
    pub heaped : heap.IsHeap l.queue

  -- The map and the ready list agree, each lane is in order, and the ready list names each lane
  -- at most once.
  pub record Structure (s : Scheduler) : Type 0 where
    pub keyed :
        (k : String) (a : ℕ)
        → lookup k s.lanes ≡ some a
        → ((s.lane_at a).key ≡ k) × (a < s.fresh_lane)
    pub listed :
        (a : ℕ)
        → member a s.ready ≡ true
        → (lookup (s.lane_at a).key s.lanes ≡ some a) × ((s.lane_at a).ready ≡ true)
    pub marked :
        (k : String) (a : ℕ)
        → lookup k s.lanes ≡ some a
        → (s.lane_at a).ready ≡ true
        → member a s.ready ≡ true
    pub once : Distinct s.ready
    pub lane_ok : (k : String) (a : ℕ) → lookup k s.lanes ≡ some a → LaneOk (s.lane_at a)

-- Every lane that can run is marked ready, but perhaps the lane at `b`.
abbrev pub ConservedBut : ℕ → Scheduler → Type 0
ConservedBut b s =
    (k : String) (a : ℕ)
    → lookup k s.lanes ≡ some a
    → a ≢ b
    → can_run (s.lane_at a) ≡ true
    → (s.lane_at a).ready ≡ true

abbrev pub Conserved : Scheduler → Type 0
Conserved s =
    (k : String) (a : ℕ)
    → lookup k s.lanes ≡ some a
    → can_run (s.lane_at a) ≡ true
    → (s.lane_at a).ready ≡ true

module _ (heap : HeapPackage) where
  pub record Inv (s : Scheduler) : Type 0 where
    pub structure : Structure heap s
    pub conserved : Conserved s

  -- A lane is replaced by one with its key and mark.
  module _ (s : Scheduler) (b : ℕ) (l : Lane) (same_key : l.key ≡ (s.lane_at b).key)
      (same_mark : l.ready ≡ (s.lane_at b).ready) where
    pub put_lane-Structure : LaneOk heap l → Structure heap s → Structure heap (put_lane s b l)
    unfolding update
    put_lane-Structure ok v = record {
      keyed = λ k a e. ground (arith, v.keyed k a e);
      listed = λ a m. ground (arith, v.listed a m, same_key);
      marked = λ k a e r. ground (arith, v.marked k a e);
      once = v.once;
      lane_ok = λ k a e. go k a e;
    }
      where
        go : (k : String) (a : ℕ) → lookup k s.lanes ≡ some a → LaneOk heap (update s.lane_at b l a)
        go k a e = elim (Bool-cases (b == a)) [
          | inl here ↦ rw here ok
          | inr there ↦ rw there (v.lane_ok k a e)
        ]

  pub mark_ready-Structure :
      (s : Scheduler) (b : ℕ) (k : String)
      → lookup k s.lanes ≡ some b
      → Structure heap s
      → Structure heap (mark_ready s b)
  unfolding mark_ready update
  mark_ready-Structure s b k e v = elim (Bool-cases (not l.ready && can_run l)) [
    | inr f ↦ rw f v
    | inl t ↦ rw t (record {
      keyed = λ j a h. ground (arith, v.keyed j a h);
      listed =
          λ a m. ground (arith, v.listed a, v.keyed k b e, e, member-append a s.ready (b ∷ []));
      marked = λ j a h r. ground (arith, v.marked j a h, member-append a s.ready (b ∷ []));
      once = Distinct-snoc b s.ready v.once (absent t);
      lane_ok = λ j a h. go j a h;
    })
  ]
    where
      l : Lane
      l = s.lane_at b

      absent : (not l.ready && can_run l) ≡ true → member b s.ready ≡ false
      absent t = ground (arith, v.listed b)

      go :
          (j : String) (a : ℕ)
          → lookup j s.lanes ≡ some a
          → LaneOk heap (update s.lane_at b (record l { ready = true }) a)
      go j a h = elim (Bool-cases (b == a)) [
        | inl here ↦
            rw here
              (record { within = (v.lane_ok k b e).within; heaped = (v.lane_ok k b e).heaped })
        | inr there ↦ rw there (v.lane_ok j a h)
      ]

pub mark_ready-Conserved : (s : Scheduler) (b : ℕ) → ConservedBut b s → Conserved (mark_ready s b)
unfolding mark_ready update
mark_ready-Conserved s b c k a e r = elim (Bool-cases (not l.ready && can_run l)) [
  | inl t ↦ ground (arith, c k a)
  | inr f ↦ ground (arith, c k a)
]
  where
    l : Lane
    l = s.lane_at b

module _ (heap : HeapPackage) (s : Scheduler) where
  -- Neither the jobs' data nor the tracked jobs, the counter, the gauges and the token matter.
  pub frame-Structure :
      (d : ℕ → DeliveryJob) (tr : Map Held) (n : ℕ) (m : Metrics) (w : Bool)
      → Structure heap s
      → Structure heap (record s { data_of = d; tracked = tr; seq = n; metrics = m; wake = w })
  frame-Structure d tr n m w v = record {
    keyed = v.keyed;
    listed = v.listed;
    marked = v.marked;
    once = v.once;
    lane_ok = v.lane_ok;
  }

  pub frame-Inv :
      (d : ℕ → DeliveryJob) (tr : Map Held) (n : ℕ) (m : Metrics) (w : Bool)
      → Inv heap s
      → Inv heap (record s { data_of = d; tracked = tr; seq = n; metrics = m; wake = w })
  frame-Inv d tr n m w v = record {
    structure = frame-Structure d tr n m w v.structure;
    conserved = v.conserved;
  }

  pub signal-Inv : Inv heap s → Inv heap (signal s)
  signal-Inv v = frame-Inv s.data_of s.tracked s.seq s.metrics true v

  -- A lane that is replaced, keeping its key and mark, and then marked if it can run.
  pub put_lane-mark_ready-Inv :
      (b : ℕ) (k : String) (l : Lane)
      → lookup k s.lanes ≡ some b
      → l.key ≡ (s.lane_at b).key
      → l.ready ≡ (s.lane_at b).ready
      → LaneOk heap l
      → Structure heap s
      → ConservedBut b s
      → Inv heap (mark_ready (put_lane s b l) b)
  unfolding update
  put_lane-mark_ready-Inv b k l e same_key same_mark ok v c = record {
    structure =
        mark_ready-Structure heap (put_lane s b l) b k e
          (put_lane-Structure heap s b l same_key same_mark ok v);
    conserved = mark_ready-Conserved (put_lane s b l) b (λ j a h ne r. ground (arith, c j a h));
  }

-- Marking a lane leaves the jobs alone.
pub mark_ready-tracked :
    (s : Scheduler) (a : ℕ)
    → ((mark_ready s a).tracked ≡ s.tracked) × ((mark_ready s a).data_of ≡ s.data_of)
unfolding mark_ready
mark_ready-tracked s a = elim (Bool-cases (not (s.lane_at a).ready && can_run (s.lane_at a))) [
  | inl t ↦ rw t (refl, refl)
  | inr f ↦ rw f (refl, refl)
]
