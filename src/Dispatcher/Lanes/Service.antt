-- ===== src/Dispatcher/Lanes/Service.antt =====
-- tryNext: it keeps the invariant, serves the highest priority in turn, and misses no lane.
use webhook_broker.Base.{
  ℕ, suc, String, true, ◌&&◌, not, ◌==◌, ◌≡◌, ◌≢◌, refl, subst, ap, ◌∙◌, inl, inr, arith, none,
  some, List, [], ◌∷◌, update, member, erase_at, lookup, Bool-cases, get_elem?, Perm,
  member-keep_if, Distinct-keep_if, member-erase_at, Distinct-erase_at,
}
use webhook_broker.Dispatcher.Queue.{Job, HeapPackage}
use webhook_broker.Dispatcher.Lanes.State.{Lane, Scheduler, Metrics, can_run, mark_ready}
use webhook_broker.Dispatcher.Lanes.Serve.{Scan, scan, unready, mark_running, start, serve}
use webhook_broker.Dispatcher.Lanes.Invariant.{
  LaneOk, Structure, Inv, ConservedBut, Conserved, frame-Structure, put_lane-mark_ready-Inv,
}
use webhook_broker.Dispatcher.Lanes.Scanning.{
  unmarked, unmark_if, runnables, scan-runnable, scan-lane_at,
}

-- The state of the scan when it starts, and what tryNext keeps of its result.
abbrev pub scanned : Scheduler → Scan
scanned s = scan s.ready (record { lane_at = s.lane_at; runnable = []; best = none })

abbrev pub after_scan : Scheduler → Scheduler
after_scan s = record s { lane_at = (scanned s).lane_at; ready = (scanned s).runnable }

module _ (s : Scheduler) where
  pub scanned-runnable : (scanned s).runnable ≡ runnables s.lane_at s.ready
  scanned-runnable = scan-runnable s.ready _

  pub scanned-lane_at : (b : ℕ) → (scanned s).lane_at b ≡ unmark_if (member b s.ready) (s.lane_at b)
  scanned-lane_at b = scan-lane_at b s.ready _

  pub scanned-member :
      (b : ℕ) → member b (scanned s).runnable ≡ (member b s.ready && can_run (s.lane_at b))
  scanned-member b = rw scanned-runnable (member-keep_if (λ a. can_run (s.lane_at a)) b s.ready)

  module _ (heap : HeapPackage) (v : Structure heap s) where
    pub after_scan-Structure : Structure heap (after_scan s)
    after_scan-Structure = record {
      keyed = λ k a e. ground (arith, scanned-lane_at a, v.keyed k a);
      listed = λ a m. ground (arith, scanned-lane_at a, scanned-member a, v.listed a);
      marked = λ k a e r. ground (arith, scanned-lane_at a, scanned-member a, v.marked k a);
      once = rw scanned-runnable (Distinct-keep_if (λ a. can_run (s.lane_at a)) s.ready v.once);
      lane_ok = λ k a e. rw (scanned-lane_at a) (go k a e);
    }
      where
        go :
            (k : String) (a : ℕ)
            → lookup k s.lanes ≡ some a
            → LaneOk heap (unmark_if (member a s.ready) (s.lane_at a))
        go k a e = elim (Bool-cases (member a s.ready && not (can_run (s.lane_at a)))) [
          | inl t ↦
              rw t (let o = v.lane_ok k a e in record { within = o.within; heaped = o.heaped })
          | inr f ↦ rw f (v.lane_ok k a e)
        ]

    pub after_scan-Conserved : Conserved s → Conserved (after_scan s)
    after_scan-Conserved c k a e r = ground (arith, scanned-lane_at a, c k a)

-- The lane at index `i` leaves the ready list.
module _ (heap : HeapPackage) (s : Scheduler) (i a : ℕ) (at : get_elem? s.ready i ≡ some a)
    (v : Structure heap s) where
  pub unready-Structure : Structure heap (unready s a (erase_at s.ready i))
  unfolding unready update
  unready-Structure = record {
    keyed = λ k b e. ground (arith, v.keyed k b e);
    listed = λ b m. ground (arith, v.listed b, member-erase_at s.ready i a b v.once at);
    marked = λ k b e r. ground (arith, v.marked k b e, member-erase_at s.ready i a b v.once at);
    once = Distinct-erase_at s.ready i v.once;
    lane_ok = λ k b e. go k b e;
  }
    where
      go :
          (k : String) (b : ℕ)
          → lookup k s.lanes ≡ some b
          → LaneOk heap (update s.lane_at a (unmarked (s.lane_at a)) b)
      go k b e = elim (Bool-cases (a == b)) [
        | inl here ↦ rw here (
            let o = v.lane_ok k a (ground arith) in record { within = o.within; heaped = o.heaped })
        | inr there ↦ rw there (v.lane_ok k b e)
      ]

  pub unready-ConservedBut : Conserved s → ConservedBut a (unready s a (erase_at s.ready i))
  unfolding unready update
  unready-ConservedBut c k b e ne r = ground (arith, c k b)

-- Marking a lane changes nothing but marks and the ready list.
pub mark_ready-lane :
    (s : Scheduler) (a b : ℕ)
    → (((mark_ready s a).lane_at b).queue ≡ (s.lane_at b).queue)
      × (((mark_ready s a).lane_at b).inflight ≡ (s.lane_at b).inflight)
unfolding mark_ready update
mark_ready-lane s a b = elim (Bool-cases (not (s.lane_at a).ready && can_run (s.lane_at a))) [
  | inl t ↦ rw t (ground arith)
  | inr f ↦ rw f (refl, refl)
]

-- What serving the lane at `a` does, whose queue begins with `job`.
pub record Took (s : Scheduler) (a : ℕ) (job : Job) (q : List Job) (t : Scheduler) : Type 0 where
  pub taken : Perm (t.lane_at a).queue q
  pub counted : (t.lane_at a).inflight ≡ suc (s.lane_at a).inflight
  pub others :
      (b : ℕ)
      → b ≢ a
      → ((t.lane_at b).queue ≡ (s.lane_at b).queue)
        × ((t.lane_at b).inflight ≡ (s.lane_at b).inflight)

module _ (heap : HeapPackage) (s : Scheduler) (a : ℕ) (k : String) (job : Job) (q : List Job) where
  start-Took : (rest : List Job) → Perm rest q → Took s a job q (mark_ready (start s a job rest) a)
  unfolding start update mark_running
  start-Took rest p = record {
    taken = rw ((mark_ready-lane (start s a job rest) a a).0) (ground (arith, p));
    counted = (mark_ready-lane (start s a job rest) a a).1 ∙ ground arith;
    others = λ b ne. ground (arith, mark_ready-lane (start s a job rest) a b);
  }

  serve_lem :
      (rest : List Job)
      → heap.pop (s.lane_at a).queue ≡ some (job, rest)
      → serve heap s a ≡ some (mark_ready (start s a job rest) a, some job)
  unfolding serve
  serve_lem rest e = rw (e, serve)

  module _ (e : lookup k s.lanes ≡ some a) (v : Structure heap s)
      (runs : can_run (s.lane_at a) ≡ true) (c : ConservedBut a s) where
    start-Inv : (rest : List Job) → heap.IsHeap rest → Inv heap (mark_ready (start s a job rest) a)
    unfolding start mark_running
    start-Inv rest h =
        let l = s.lane_at a in
        let t = mark_running s (s.data_of job.ptr).base.id in
        let m : Metrics = (start s a job rest).metrics in
        let u : Scheduler = record t { metrics = m } in
        let l' : Lane = record l { queue = rest; inflight = suc l.inflight } in
        put_lane-mark_ready-Inv heap u a k l' e refl refl
          (record { within = ground (arith, (v.lane_ok k a e).within); heaped = h })
          (frame-Structure heap s s.data_of t.tracked s.seq m s.wake v) c

    pub serve-Inv :
        (s.lane_at a).queue ≡ job ∷ q
        → (t : Scheduler) × (serve heap s a ≡ some (t, some job)) × Inv heap t × Took s a job q t
    serve-Inv first =
        let ok = v.lane_ok k a e in
        let (rest, popped, heaped, perm) =
          heap.pop_root job q (subst heap.IsHeap first ok.heaped) in
        (
          mark_ready (start s a job rest) a,
          serve_lem rest (ap heap.pop first ∙ popped),
          start-Inv rest heaped,
          start-Took rest perm,
        )
