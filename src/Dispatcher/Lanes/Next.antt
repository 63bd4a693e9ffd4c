-- ===== src/Dispatcher/Lanes/Next.antt =====
-- tryNext as a whole: it never panics, serves the highest priority in turn, and misses no lane.
use webhook_broker.Base.{
  ℕ, ◌≤◌, ◌<◌, String, true, false, ◌≡◌, refl, sym, subst, ap, ◌∙◌, inl, inr, arith, Option, none,
  some, List, [], ◌∷◌, update, member, erase_at, lookup, Bool-cases, Option-cases, get_elem?,
  member-get_elem?, get_elem?-of-member,
}
use webhook_broker.Dispatcher.Queue.{Job, HeapPackage}
use webhook_broker.Dispatcher.Lanes.State.{Lane, Scheduler, can_run}
use webhook_broker.Dispatcher.Lanes.Serve.{unready, try_next, serve, head_priority}
use webhook_broker.Dispatcher.Lanes.Invariant.{Inv}
use webhook_broker.Dispatcher.Lanes.Scanning.{runnables, Best, next_priority, scan-Best}
use webhook_broker.Dispatcher.Lanes.Service.{
  scanned, after_scan, scanned-runnable, scanned-lane_at, scanned-member, after_scan-Structure,
  after_scan-Conserved, unready-Structure, unready-ConservedBut, serve-Inv, Took,
}

-- What tryNext does when it hands out `job`: the lane that it serves can run and `job` is the first
-- of its queue; no lane that can run has a job of a higher priority, and those before it in the
-- ready list have lower ones; the lane runs one delivery more, the other lanes are as before.
pub record Serves (s t : Scheduler) (job : Job) : Type 0 where
  pub lane : ℕ
  pub key : String
  pub rest : List Job
  pub turn : ℕ
  pub registered : lookup key s.lanes ≡ some lane
  pub runs : can_run (s.lane_at lane) ≡ true
  pub first : (s.lane_at lane).queue ≡ job ∷ rest
  pub its_turn : get_elem? (runnables s.lane_at s.ready) turn ≡ some lane
  pub highest :
      (k : String) (b : ℕ)
      → lookup k s.lanes ≡ some b
      → can_run (s.lane_at b) ≡ true
      → next_priority s.lane_at b ≤ job.priority
  pub earlier :
      (j b : ℕ)
      → get_elem? (runnables s.lane_at s.ready) j ≡ some b
      → j < turn
      → next_priority s.lane_at b < job.priority
  pub took : Took s lane job rest t

-- No lane of the map can run.
abbrev pub NoneRuns : Scheduler → Type 0
NoneRuns s = (k : String) (b : ℕ) → lookup k s.lanes ≡ some b → can_run (s.lane_at b) ≡ false

abbrev pub Answers : Scheduler → Scheduler → Option Job → Type 0
Answers s t none = NoneRuns s × NoneRuns t
Answers s t (some job) = Serves s t job

module _ (s : Scheduler) where
  -- Neither the scan nor unmarking changes what waits and runs in a lane.
  after_scan-lane :
      (b : ℕ)
      → ((((scanned s).lane_at b).queue ≡ (s.lane_at b).queue)
          × (((scanned s).lane_at b).inflight ≡ (s.lane_at b).inflight)
          × (can_run ((scanned s).lane_at b) ≡ can_run (s.lane_at b)))
  after_scan-lane b = ground (arith, scanned-lane_at s b)

  found : Best (next_priority s.lane_at) (scanned s).runnable (scanned s).best
  found = scan-Best s.lane_at s.ready _ (λ b. refl) refl

unready-lane :
    (s : Scheduler) (a : ℕ) (r : List ℕ) (b : ℕ)
    → ((((unready s a r).lane_at b).queue ≡ (s.lane_at b).queue)
        × (((unready s a r).lane_at b).inflight ≡ (s.lane_at b).inflight)
        × (can_run ((unready s a r).lane_at b) ≡ can_run (s.lane_at b)))
unfolding unready update
unready-lane s a r b = ground arith

waiting : (l : Lane) → can_run l ≡ true → (j : Job) × (q : List Job) × (l.queue ≡ j ∷ q)
waiting l h = go l.queue refl
  where
    go : (q : List Job) → l.queue ≡ q → (j : Job) × (r : List Job) × (l.queue ≡ j ∷ r)
    go [] e = absurd (ground arith)
    go (j ∷ r) e = (j, r, e)

module _ (heap : HeapPackage) (s : Scheduler) (v : Inv heap s) where
  -- A lane that can run is among those that the scan keeps.
  kept :
      (k : String) (b : ℕ)
      → lookup k s.lanes ≡ some b
      → can_run (s.lane_at b) ≡ true
      → member b (scanned s).runnable ≡ true
  kept k b e r = ground (arith, scanned-member s b, v.structure.marked k b e, v.conserved k b e r)

  none_runs : (scanned s).best ≡ none → NoneRuns s
  none_runs nothing k b e = elim (Bool-cases (can_run (s.lane_at b))) [
    | inr f ↦ f
    | inl t ↦
        let empty : (scanned s).runnable ≡ [] =
          subst (Best (next_priority s.lane_at) (scanned s).runnable) nothing (found s) in
        ground (arith, kept k b e t, ap (member b) empty)
  ]

  module _ (i p a : ℕ) (at : get_elem? (scanned s).runnable i ≡ some a) where
    chosen : (lookup (s.lane_at a).key s.lanes ≡ some a) × (can_run (s.lane_at a) ≡ true)
    chosen = ground (
      arith,
      member-get_elem? (scanned s).runnable i a at,
      scanned-member s a,
      v.structure.listed a,
    )

    abbrev cleared : Scheduler
    cleared = unready (after_scan s) a (erase_at (scanned s).runnable i)

    cleared-lane :
        (b : ℕ)
        → (((cleared.lane_at b).queue ≡ (s.lane_at b).queue)
            × ((cleared.lane_at b).inflight ≡ (s.lane_at b).inflight)
            × (can_run (cleared.lane_at b) ≡ can_run (s.lane_at b)))
    cleared-lane b = ground (
      arith,
      unready-lane (after_scan s) a (erase_at (scanned s).runnable i) b,
      after_scan-lane s b,
    )

    cleared-Took :
        (job : Job) (q : List Job) (t : Scheduler) → Took cleared a job q t → Took s a job q t
    cleared-Took job q t k = record {
      taken = k.taken;
      counted = ground (arith, k.counted, cleared-lane a);
      others = λ b ne. ground (arith, k.others b ne, cleared-lane b);
    }

    serves :
        (job : Job) (q : List Job)
        → (s.lane_at a).queue ≡ job ∷ q
        → (t : Scheduler) × (serve heap cleared a ≡ some (t, some job))
          × Inv heap t
          × Took s a job q t
    unfolding unready
    serves job q first =
        let w = after_scan-Structure s heap v.structure in
        let c = after_scan-Conserved s heap v.structure v.conserved in
        let (t, e, inv, took) =
          serve-Inv heap cleared a (s.lane_at a).key job q chosen.0
            (unready-Structure heap (after_scan s) i a at w) ((cleared-lane a).2 ∙ chosen.1)
            (unready-ConservedBut heap (after_scan s) i a at w c) ((cleared-lane a).0 ∙ first) in
        (t, e, inv, cleared-Took job q t took)

-- Under the invariant tryNext does not panic and keeps the invariant; it answers nil only if no lane
-- can run, and otherwise serves as `Serves` says.
pub try_next-Inv :
    (heap : HeapPackage) (s : Scheduler)
    → Inv heap s
    → (t : Scheduler) × (r : Option Job) × (try_next heap s ≡ some (t, r))
      × Inv heap t
      × Answers s t r
unfolding try_next
try_next-Inv heap s v = elim (Option-cases (scanned s).best) [
  | inl nothing ↦ (
    after_scan s,
    none,
    rw (nothing, try_next),
    record {
      structure = after_scan-Structure s heap v.structure;
      conserved = after_scan-Conserved s heap v.structure v.conserved;
    },
    (
      none_runs heap s v nothing,
      λ k b e. (after_scan-lane s b).2 ∙ none_runs heap s v nothing k b e,
    ),
  )
  | inr ((i, p), e) ↦
      let (a, at, prio, top) =
        subst (Best (next_priority s.lane_at) (scanned s).runnable) e (found s) in
      let (registered, runs) = chosen heap s v i p a at in
      let (job, q, first) = waiting (s.lane_at a) runs in
      let (t, served, inv, took) = serves heap s v i p a at job q first in
      (
        t,
        some job,
        rw (e, try_next) (rw at served),
        inv,
        record {
          lane = a;
          key = (s.lane_at a).key;
          rest = q;
          turn = i;
          registered = registered;
          runs = runs;
          first = first;
          its_turn = ap (λ r. get_elem? r i) (sym (scanned-runnable s)) ∙ at;
          highest = λ k b e' r.
              let (j, at') = get_elem?-of-member (scanned s).runnable b (kept heap s v k b e' r) in
              ground (arith, (top j b at').0, prio, ap head_priority first);
          earlier = λ j b at' lt. ground (
            arith,
            (top j b (ap (λ r. get_elem? r j) (scanned-runnable s) ∙ at')).1 lt,
            prio,
            ap head_priority first,
          );
          took = took;
        },
      )
]
