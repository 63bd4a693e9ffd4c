-- ===== src/Dispatcher/Lanes/Admission.antt =====
-- enqueue keeps the invariant of the laneScheduler and never queues a job that is held.
use webhook_broker.Base.{
  ℕ, suc, String, Bool, true, false, ◌&&◌, not, ◌==◌, ◌≡◌, refl, subst, ltb, inl, inr, arith, none,
  some, [], lookup, insert, update, Bool-cases, Option-cases, lookup-insert, ◌∙◌, str_eq_refl,
  eq_iff,
}
use webhook_broker.Data.{DeliveryJob, Consumer}
use webhook_broker.Dispatcher.Queue.{Job, HeapPackage}
use webhook_broker.Dispatcher.Lanes.State.{
  Lane, Scheduler, Held, Metrics, put_lane, mark_ready, lane_key, lane_channel, inc, at_label,
  is_held,
}
use webhook_broker.Dispatcher.Lanes.Enqueue.{lane_for, push_job, admit, enqueue, refresh}
use webhook_broker.Dispatcher.Lanes.Invariant.{
  LaneOk, Inv, frame-Inv, signal-Inv, mark_ready-tracked, put_lane-mark_ready-Inv,
}

module _ (heap : HeapPackage) (s : Scheduler) (v : Inv heap s) where
  -- Making the lane of a key that has none.
  module _ (l : Lane) (absent : lookup l.key s.lanes ≡ none) (idle : l.queue ≡ [])
      (unmarked : l.ready ≡ false) (ok : LaneOk heap l) where
    abbrev made : Scheduler
    made = record (put_lane s s.fresh_lane l) {
      lanes = insert l.key s.fresh_lane s.lanes;
      fresh_lane = suc s.fresh_lane;
    }

    made-Inv : Inv heap made
    unfolding update
    made-Inv = record {
      structure = record {
        keyed = λ k a e. ground (
          arith,
          v.structure.keyed k a,
          lookup-insert l.key k s.fresh_lane s.lanes,
          eq_iff l.key k,
        );
        listed = λ a m. ground (
          arith,
          v.structure.listed a,
          v.structure.keyed (s.lane_at a).key a,
          lookup-insert l.key (s.lane_at a).key s.fresh_lane s.lanes,
          eq_iff l.key (s.lane_at a).key,
        );
        marked = λ k a e r. ground (
          arith,
          v.structure.marked k a,
          v.structure.keyed k a,
          lookup-insert l.key k s.fresh_lane s.lanes,
          eq_iff l.key k,
        );
        once = v.structure.once;
        lane_ok = λ k a e. go k a e;
      };
      conserved = λ k a e r. ground (
        arith,
        v.conserved k a,
        v.structure.keyed k a,
        lookup-insert l.key k s.fresh_lane s.lanes,
        eq_iff l.key k,
      );
    }
      where
        go : (k : String) (a : ℕ) → lookup k made.lanes ≡ some a → LaneOk heap (made.lane_at a)
        go k a e = elim (Bool-cases (s.fresh_lane == a)) [
          | inl here ↦ rw here ok
          | inr there ↦
              rw there (
                v.structure.lane_ok k a
                  (ground (arith, lookup-insert l.key k s.fresh_lane s.lanes)))
        ]

  -- The lane of a key, found or made.
  pub lane_for-Inv :
      (limit_for : String → String → ℕ) (channel consumer : String)
      → let (t, a) = lane_for limit_for s channel consumer in
        Inv heap t × (lookup (lane_key channel consumer) t.lanes ≡ some a)
  unfolding lane_for
  lane_for-Inv limit_for channel consumer =
      elim (Option-cases (lookup (lane_key channel consumer) s.lanes)) [
        | inr (a, e) ↦ rw (e, lane_for) (v, e)
        | inl e ↦
            rw (e, lane_for)
              (
                made-Inv _ e refl refl
                    (record { within = ground arith; heaped = heap.empty-IsHeap }),
                ground (
                  arith,
                  lookup-insert (lane_key channel consumer) (lane_key channel consumer) s.fresh_lane
                      s.lanes,
                  str_eq_refl (lane_key channel consumer),
                ),
              )
      ]

module _ (heap : HeapPackage) (limit_for : String → String → ℕ) where
  push_job-Inv :
      (s : Scheduler) (channel consumer : String) (a ptr priority : ℕ) (k : String)
      → lookup k s.lanes ≡ some a
      → Inv heap s
      → Inv heap (push_job heap s channel consumer a ptr priority)
  unfolding push_job
  push_job-Inv s channel consumer a ptr priority k e v =
      let l = s.lane_at a in
      let seq = suc s.seq in
      let job : Job = record { ptr = ptr; priority = priority; seq = seq } in
      let metrics : Metrics = record s.metrics {
        queued_job_count = inc s.metrics.queued_job_count;
        consumer_queued_job_count =
            at_label channel consumer inc s.metrics.consumer_queued_job_count;
      } in
      let u : Scheduler = record s { seq = seq; metrics = metrics } in
      let l' : Lane = record l { queue = heap.push l.queue job } in
      let w = frame-Inv heap s s.data_of s.tracked seq metrics s.wake v in
      let ok = v.structure.lane_ok k a e in
      signal-Inv heap (mark_ready (put_lane u a l') a) (
        put_lane-mark_ready-Inv heap u a k l' e refl refl
          (record { within = ok.within; heaped = heap.push-IsHeap l.queue job ok.heaped })
          w.structure (λ j b h ne r. v.conserved j b h r))

  admit-Inv :
      (s : Scheduler) (ptr priority : ℕ) (d : DeliveryJob) (c : Consumer)
      → Inv heap s
      → Inv heap (admit heap limit_for s ptr priority d c)
  unfolding admit
  admit-Inv s ptr priority d c v =
      let channel = lane_channel c d.message in
      let tracked = insert d.base.id (record { ptr = ptr; running = false }) s.tracked in
      let (w, e) =
        lane_for-Inv heap _ (frame-Inv heap s s.data_of tracked s.seq s.metrics s.wake v) limit_for
          channel c.consumer_id in
      push_job-Inv _ channel c.consumer_id _ ptr priority _ e w

  refresh-Inv :
      (s : Scheduler) (held : Held) (d : DeliveryJob) → Inv heap s → Inv heap (refresh s held d)
  unfolding refresh
  refresh-Inv s held d v =
      elim (Bool-cases
        (not held.running && ltb (s.data_of held.ptr).retry_attempt_count d.retry_attempt_count)) [
          | inl t ↦ rw t (frame-Inv heap s _ s.tracked s.seq s.metrics s.wake v)
          | inr f ↦ rw f v
        ]

  pub enqueue-Inv :
      (s : Scheduler) (ptr priority : ℕ) (t : Scheduler) (added : Bool)
      → Inv heap s
      → enqueue heap limit_for s ptr priority ≡ some (t, added)
      → Inv heap t
  unfolding enqueue refresh
  enqueue-Inv s ptr priority t added v e = elim (Option-cases (lookup d.base.id s.tracked)) [
    | inl absent ↦ elim (Option-cases d.listener) [
      | inl nil ↦ cc
      | inr (c, at) ↦ subst (Inv heap) (ground arith) (admit-Inv s ptr priority d c v)
    ]
    | inr (held, at) ↦ subst (Inv heap) (ground arith) (refresh-Inv s held d v)
  ]
    where
      d : DeliveryJob
      d = s.data_of ptr

  lane_for-tracked :
      (s : Scheduler) (channel consumer : String)
      → ((lane_for limit_for s channel consumer).0.tracked ≡ s.tracked)
        × ((lane_for limit_for s channel consumer).0.data_of ≡ s.data_of)
  unfolding lane_for
  lane_for-tracked s channel consumer =
      elim (Option-cases (lookup (lane_key channel consumer) s.lanes)) [
        | inl e ↦ rw (e, lane_for) (refl, refl)
        | inr (a, e) ↦ rw (e, lane_for) (refl, refl)
      ]

  admit-tracked :
      (s : Scheduler) (ptr priority : ℕ) (d : DeliveryJob) (c : Consumer)
      → ((admit heap limit_for s ptr priority d c).tracked
          ≡ insert d.base.id (record { ptr = ptr; running = false }) s.tracked)
        × ((admit heap limit_for s ptr priority d c).data_of ≡ s.data_of)
  unfolding admit push_job
  admit-tracked s ptr priority d c =
      let channel = lane_channel c d.message in
      let tracked = insert d.base.id (record { ptr = ptr; running = false }) s.tracked in
      let f = lane_for-tracked (record s { tracked = tracked }) channel c.consumer_id in
      let m = mark_ready-tracked _ _ in (m.0 ∙ f.0, m.1 ∙ f.1)

  -- After enqueue isHeld answers true for the given copy: a job with its id is running, or one waits with
  -- a retry count at least that of the copy, whether the copy was added, refreshed the held one or was
  -- dropped.
  pub enqueue-is_held :
      (s : Scheduler) (ptr priority : ℕ) (t : Scheduler) (added : Bool)
      → enqueue heap limit_for s ptr priority ≡ some (t, added)
      → is_held t (s.data_of ptr) ≡ true
  unfolding enqueue refresh is_held update
  enqueue-is_held s ptr priority t added e = elim (Option-cases (lookup d.base.id s.tracked)) [
    | inl absent ↦ elim (Option-cases d.listener) [
      | inl nil ↦ cc
      | inr (c, at) ↦ ground (
        arith,
        admit-tracked s ptr priority d c,
        lookup-insert d.base.id d.base.id (record { ptr = ptr; running = false }) s.tracked,
        str_eq_refl d.base.id,
      )
    ]
    | inr (held, at) ↦ ground arith
  ]
    where
      d : DeliveryJob
      d = s.data_of ptr
