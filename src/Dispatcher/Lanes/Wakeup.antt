-- ===== src/Dispatcher/Lanes/Wakeup.antt =====
-- next and its callers: the assign loop sleeps only while no lane can run.
use webhook_broker.Base.{
  ℕ, String, Bool, true, false, ◌≡◌, sym, subst, ◌⊎◌, ◌∙◌, ap, arith, Option, none, some, inl, inr,
  lookup,
}
use webhook_broker.Data.{DeliveryJob, Consumer}
use webhook_broker.Dispatcher.Queue.{Job, HeapPackage}
use webhook_broker.Dispatcher.Lanes.State.{Lane, Metrics, Scheduler, can_run, new_lane_scheduler}
use webhook_broker.Dispatcher.Lanes.Enqueue.{enqueue, refresh, admit, push_job}
use webhook_broker.Dispatcher.Lanes.Serve.{try_next, done}
use webhook_broker.Dispatcher.Lanes.Invariant.{Inv, frame-Inv}
use webhook_broker.Dispatcher.Lanes.Admission.{enqueue-Inv}
use webhook_broker.Dispatcher.Lanes.Next.{NoneRuns, Answers, try_next-Inv}
use webhook_broker.Dispatcher.Lanes.Completion.{done-Inv}

-- Where the assign loop is: waiting for an idle worker, in the loop of next before tryNext, or in
-- its select on `wake`.
pub data Phase : Type 0 where
  away : Phase
  polling : Phase
  sleeping : Phase

pub record System : Type 0 where
  pub scheduler : Scheduler
  pub phase : Phase

-- The calls, in any order: those of the dispatch loop and of the workers at any time, and those of
-- the one assign loop by its phase. A call that panics is no step.
pub data Step (heap : HeapPackage) (limit_for : String → String → ℕ)
    : System → System → Type 0 where
  enqueues :
      {y : System} {added : Bool} (x : System) (ptr priority : ℕ)
      → enqueue heap limit_for x.scheduler ptr priority ≡ some (y.scheduler, added)
      → y.phase ≡ x.phase
      → Step heap limit_for x y
  finishes :
      {y : System} (x : System) (ptr : ℕ) (c : Consumer)
      → (x.scheduler.data_of ptr).listener ≡ some c
      → done x.scheduler ptr ≡ some y.scheduler
      → y.phase ≡ x.phase
      → Step heap limit_for x y
  calls :
      {x y : System}
      → x.phase ≡ away
      → y.phase ≡ polling
      → y.scheduler ≡ x.scheduler
      → Step heap limit_for x y
  hands_out :
      {y : System} (x : System) (job : Job)
      → x.phase ≡ polling
      → try_next heap x.scheduler ≡ some (y.scheduler, some job)
      → y.phase ≡ away
      → Step heap limit_for x y
  finds_none :
      {y : System} (x : System)
      → x.phase ≡ polling
      → try_next heap x.scheduler ≡ some (y.scheduler, none)
      → y.phase ≡ sleeping
      → Step heap limit_for x y
  wakes :
      {y : System} (x : System)
      → x.phase ≡ sleeping
      → x.scheduler.wake ≡ true
      → y.scheduler ≡ record (x.scheduler) { wake = false }
      → y.phase ≡ polling
      → Step heap limit_for x y

pub data Reach (heap : HeapPackage) (limit_for : String → String → ℕ) (x : System)
    : System → Type 0 where
  here : Reach heap limit_for x x
  next :
      {y z : System} → Reach heap limit_for x y → Step heap limit_for y z → Reach heap limit_for x z

-- The invariant, and no sleep without a token while a lane can run.
pub record Awake (heap : HeapPackage) (x : System) : Type 0 where
  pub inv : Inv heap x.scheduler
  pub no_lost_wakeup : x.phase ≡ sleeping → x.scheduler.wake ≡ false → NoneRuns x.scheduler

module _ (heap : HeapPackage) (limit_for : String → String → ℕ) where
  -- enqueue leaves a token, or leaves the lanes and the token as they were.
  enqueue-wake :
      (s : Scheduler) (ptr priority : ℕ) (t : Scheduler) (added : Bool)
      → enqueue heap limit_for s ptr priority ≡ some (t, added)
      → (t.wake ≡ true) ⊎ ((t.wake ≡ s.wake) × (t.lanes ≡ s.lanes) × (t.lane_at ≡ s.lane_at))
  unfolding enqueue refresh admit push_job
  enqueue-wake s ptr priority t added e = ground arith

  enqueues-Awake :
      (s : Scheduler) (ph : Phase) (ptr priority : ℕ) (t : Scheduler) (added : Bool)
      → Awake heap (record { scheduler = s; phase = ph })
      → enqueue heap limit_for s ptr priority ≡ some (t, added)
      → Awake heap (record { scheduler = t; phase = ph })
  enqueues-Awake s ph ptr priority t added w e = record {
    inv = enqueue-Inv heap limit_for s ptr priority t added w.inv e;
    no_lost_wakeup = λ sleeps off. elim (enqueue-wake s ptr priority t added e) [
      | inl on ↦ λ k b at. cc
      | inr (same, lanes, lane_at) ↦ λ k b at.
          ap (λ h. can_run (h b)) lane_at
          ∙ w.no_lost_wakeup sleeps (sym same ∙ off) k b (ap (lookup k) (sym lanes) ∙ at)
    ];
  }

  none-NoneRuns :
      (s t : Scheduler) (r : Option Job) (u : Scheduler)
      → ◌≡◌ {A = Option (Scheduler × Option Job)} (some (t, r)) (some (u, none))
      → Answers s t r
      → NoneRuns u
  none-NoneRuns s t none u e h = let same : t ≡ u = cc in subst NoneRuns same h.1
  none-NoneRuns s t (some j) u e h = cc

  Step-Awake : {x y : System} → Step heap limit_for x y → Awake heap x → Awake heap y
  Step-Awake {y = y} (enqueues {added = added} x ptr priority e same) w =
      let w' = enqueues-Awake x.scheduler x.phase ptr priority y.scheduler added w e in
      record {
        inv = w'.inv;
        no_lost_wakeup = λ sleeps off. w'.no_lost_wakeup (sym same ∙ sleeps) off;
      }
  Step-Awake {y = y} (finishes x ptr c at e same) w =
      let (t, e', inv, gone, on) = done-Inv heap x.scheduler ptr c at w.inv in
      let eq : t ≡ y.scheduler = cc in
      record { inv = subst (Inv heap) eq inv; no_lost_wakeup = λ sleeps off. cc }
  Step-Awake (calls before after same) w = record {
    inv = subst (Inv heap) (sym same) w.inv;
    no_lost_wakeup = λ sleeps off. cc;
  }
  Step-Awake {y = y} (hands_out x job before e after) w =
      let (t, r, e', inv, answers) = try_next-Inv heap x.scheduler w.inv in
      let eq : t ≡ y.scheduler = cc in
      record { inv = subst (Inv heap) eq inv; no_lost_wakeup = λ sleeps off. cc }
  Step-Awake {y = y} (finds_none x before e after) w =
      let (t, r, e', inv, answers) = try_next-Inv heap x.scheduler w.inv in
      let eq : t ≡ y.scheduler = cc in
      record {
        inv = subst (Inv heap) eq inv;
        no_lost_wakeup =
            λ sleeps off. none-NoneRuns x.scheduler t r y.scheduler (sym e' ∙ e) answers;
      }
  Step-Awake (wakes x before on same after) w = record {
    inv = subst (Inv heap) (sym same) (frame-Inv heap x.scheduler _ _ _ _ false w.inv);
    no_lost_wakeup = λ sleeps off. cc;
  }

  Reach-Awake : {x y : System} → Reach heap limit_for x y → Awake heap x → Awake heap y
  Reach-Awake here w = w
  Reach-Awake (next r st) w = Step-Awake st (Reach-Awake r w)

  new-Inv :
      (lane_at : ℕ → Lane) (data_of : ℕ → DeliveryJob) (m : Metrics)
      → Inv heap (new_lane_scheduler lane_at data_of m)
  unfolding new_lane_scheduler lookup
  new-Inv lane_at data_of m = record {
    structure = record {
      keyed = λ k a e. cc;
      listed = λ a e. cc;
      marked = λ k a e r. cc;
      once = tt;
      lane_ok = λ k a e. absurd (ground arith);
    };
    conserved = λ k a e r. cc;
  }

  -- From a new scheduler, whatever calls are made in whatever order, the invariant holds; and if the
  -- assign loop sleeps in the select of next with no token in `wake`, no lane can run.
  pub no_lost_wakeup :
      (lane_at : ℕ → Lane) (data_of : ℕ → DeliveryJob) (m : Metrics) (y : System)
      → Reach heap limit_for
          (record { scheduler = new_lane_scheduler lane_at data_of m; phase = away })
          y
      → Awake heap y
  no_lost_wakeup lane_at data_of m y r =
      Reach-Awake r (record { inv = new-Inv lane_at data_of m; no_lost_wakeup = λ sleeps off. cc })
