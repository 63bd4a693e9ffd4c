-- ===== src/Dispatcher/Lanes/Completion.antt =====
-- done and discardQueued.
use webhook_broker.Base.{
  ℕ, ◌-◌, String, true, false, not, ◌&&◌, ◌==◌, ltb, ◌≡◌, refl, ap, ◌∙◌, inl, inr, arith, none,
  some, update, erase, lookup, lookup-erase, eq_iff, str_eq_refl, length, Bool-cases, Option-cases,
}
use webhook_broker.Data.{DeliveryJob, Consumer}
use webhook_broker.Dispatcher.Queue.{HeapPackage}
use webhook_broker.Dispatcher.Lanes.State.{
  Lane, Scheduler, signal, lane_key, lane_channel, dec, at_label,
}
use webhook_broker.Dispatcher.Lanes.Serve.{free_slot, settle, done}
use webhook_broker.Dispatcher.Lanes.Invariant.{
  Inv, ConservedBut, Conserved, Structure, put_lane-Structure, mark_ready-Structure,
  mark_ready-Conserved, frame-Structure, frame-Inv, signal-Inv, mark_ready-tracked,
}

module _ (heap : HeapPackage) where
  -- A lane that is not marked leaves the map.
  module _ (s : Scheduler) (key : String) (a : ℕ) (at : lookup key s.lanes ≡ some a)
      (unmarked : (s.lane_at a).ready ≡ false) where
    drop-Structure : Structure heap s → Structure heap (record s { lanes = erase key s.lanes })
    drop-Structure v = record {
      keyed = λ k b e. ground (arith, v.keyed k b, lookup-erase key k s.lanes);
      listed = λ b m. ground (
        arith,
        v.listed b m,
        lookup-erase key (s.lane_at b).key s.lanes,
        eq_iff key (s.lane_at b).key,
      );
      marked = λ k b e r. ground (arith, v.marked k b, lookup-erase key k s.lanes);
      once = v.once;
      lane_ok = λ k b e. v.lane_ok k b (ground (arith, lookup-erase key k s.lanes));
    }

    drop-Conserved :
        Structure heap s → ConservedBut a s → Conserved (record s { lanes = erase key s.lanes })
    drop-Conserved v c k b e r =
        ground
          (arith, c k b, v.keyed k b, v.keyed key a at, lookup-erase key k s.lanes, eq_iff key k)

  settle-Inv :
      (s : Scheduler) (key : String) (a : ℕ)
      → lookup key s.lanes ≡ some a
      → Structure heap s
      → ConservedBut a s
      → Inv heap (settle s key a)
  unfolding settle
  settle-Inv s key a at v c =
      elim (Bool-cases (length l.queue == 0 && (l.inflight == 0 && not l.ready))) [
        | inl idle ↦ rw idle (record {
          structure = drop-Structure s key a at (ground arith) v;
          conserved = drop-Conserved s key a at (ground arith) v c;
        })
        | inr busy ↦ rw busy (record {
          structure = mark_ready-Structure heap s a key at v;
          conserved = mark_ready-Conserved s a c;
        })
      ]
    where
      l : Lane
      l = s.lane_at a

  -- Freeing a slot keeps what `settle` needs, and counts one delivery less unless there is none.
  free_slot-Inv :
      (s : Scheduler) (key : String) (a : ℕ)
      → lookup key s.lanes ≡ some a
      → Inv heap s
      → Structure heap (free_slot s a)
        × ConservedBut a (free_slot s a)
        × (lookup key (free_slot s a).lanes ≡ some a)
  unfolding free_slot update
  free_slot-Inv s key a at v = elim (Bool-cases (ltb 0 l.inflight)) [
    | inr idle ↦ rw idle (v.structure, λ k b e ne r. v.conserved k b e r, at)
    | inl busy ↦ rw busy (
      put_lane-Structure heap u a (record l { inflight = l.inflight - 1 }) refl refl
          (record {
            within = ground (arith, (v.structure.lane_ok key a at).within);
            heaped = (v.structure.lane_ok key a at).heaped;
          })
          (frame-Structure heap s s.data_of s.tracked s.seq u.metrics s.wake v.structure),
      λ k b e ne r. ground (arith, v.conserved k b e),
      at,
    )
  ]
    where
      l : Lane
      l = s.lane_at a

      u : Scheduler
      u = record s {
        metrics = record s.metrics {
          consumer_inflight_job_count =
              at_label l.channel_id l.consumer_id dec s.metrics.consumer_inflight_job_count;
        };
      }

  -- Neither changes which jobs are tracked.
  settle-tracked :
      (s : Scheduler) (key : String) (a : ℕ) → (settle (free_slot s a) key a).tracked ≡ s.tracked
  unfolding settle free_slot
  settle-tracked s key a = elim (Bool-cases (ltb 0 (s.lane_at a).inflight)) [
    | inl busy ↦ rw busy (ground (arith, (mark_ready-tracked (free_slot s a) a).0))
    | inr idle ↦ rw idle (ground (arith, (mark_ready-tracked s a).0))
  ]

  -- done of a job whose listener is not nil does not panic, keeps the invariant, leaves the job
  -- untracked, and leaves the token in `wake`.
  pub done-Inv :
      (s : Scheduler) (ptr : ℕ) (c : Consumer)
      → (s.data_of ptr).listener ≡ some c
      → Inv heap s
      → (t : Scheduler) × (done s ptr ≡ some t)
        × Inv heap t
        × (lookup (s.data_of ptr).base.id t.tracked ≡ none)
        × (t.wake ≡ true)
  unfolding done
  done-Inv s ptr c e v = elim (Option-cases (lookup key s.lanes)) [
    | inl absent ↦ (signal t, rw (e, done) (rw absent), signal-Inv heap t w, gone, refl)
    | inr (a, at) ↦
        let (st, co, at') = free_slot-Inv t key a at w in
        (
          signal (settle (free_slot t a) key a),
          rw (e, done) (rw at),
          signal-Inv heap _ (settle-Inv (free_slot t a) key a at' st co),
          ap (lookup d.base.id) (settle-tracked t key a) ∙ gone,
          refl,
        )
  ]
    where
      d : DeliveryJob
      d = s.data_of ptr

      key : String
      key = lane_key (lane_channel c d.message) c.consumer_id

      t : Scheduler
      t = record s { tracked = erase d.base.id s.tracked }

      w : Inv heap t
      w = frame-Inv heap s s.data_of t.tracked s.seq s.metrics s.wake v

      gone : lookup d.base.id t.tracked ≡ none
      gone = ground (arith, lookup-erase d.base.id d.base.id s.tracked, str_eq_refl d.base.id)
