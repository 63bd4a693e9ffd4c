-- ===== src/Parking/Handoff.antt =====
-- parking/handoff.go: the HandoffSender. `answers i` is how the i-th post of a batch ends: the status
-- of the answer, or an error. The encoding of the request never fails. The goroutines take batches
-- from `pending`, a channel of twice as many places as there are of them.
use webhook_broker.Base.{
  ℕ, zero, suc, ◌+◌, ◌*◌, ◌≤◌, Bool, true, false, ◌&&◌, ◌||◌, not, ◌==◌, ltb, leb, if◌then◌else◌,
  Option, none, some, List, [], ◌∷◌, ◌++◌, length, ◌≡◌, refl, arith, Bool-cases, inl, inr,
}
use webhook_broker.Data.{DeliveryJob}

pub record HandoffConfiguration : Type 0 where
  pub http_enabled : Bool
  pub max_attempts : ℕ
  pub concurrency : ℕ
  pub local_fallback : Bool

pub record HandoffMetrics : Type 0 where
  pub accepted : ℕ
  pub busy : ℕ
  pub error : ℕ
  pub enqueued_locally : ℕ
  pub failures : ℕ

pub record HandoffSender : Type 0 where
  pub cfg : HandoffConfiguration
  pub pending : List (List DeliveryJob)
  pub closed : Bool

abbrev pub at_least_one : ℕ → ℕ
at_least_one n = if ltb n 1 then 1 else n

unfoldable pub new_handoff_sender : HandoffConfiguration → HandoffSender
new_handoff_sender cfg = record {
  cfg = record cfg {
    concurrency = at_least_one cfg.concurrency;
    max_attempts = at_least_one cfg.max_attempts;
  };
  pending = [];
  closed = false;
}

abbrev pub capacity : HandoffSender → ℕ
capacity s = s.cfg.concurrency * 2

unfoldable pub saturated : HandoffSender → Bool
saturated s = leb (capacity s) (length s.pending)

unfoldable pub submit : HandoffSender → List DeliveryJob → HandoffSender × Bool
unfolding saturated
submit s [] = (s, true)
submit s (d ∷ ds) =
    if s.closed || saturated s
    then (s, false)
    else (record s { pending = s.pending ++ (d ∷ ds) ∷ [] }, true)

-- Stop closes the channel; the batches that it holds are still sent.
unfoldable pub stop_accepting : HandoffSender → HandoffSender
stop_accepting s = record s { closed = true }

abbrev pub is_accepted : Option ℕ → Bool
is_accepted none = false
is_accepted (some status) = status == 202

abbrev pub is_unavailable : Option ℕ → Bool
is_unavailable none = false
is_unavailable (some status) = status == 503

module _ (answers : ℕ → Option ℕ) where
  -- The loop of send from an attempt, by how many are left: whether one was accepted.
  unfoldable pub post_until : ℕ → ℕ → HandoffMetrics → HandoffMetrics × Bool
  post_until zero attempt m = (m, false)
  post_until (suc left) attempt m =
      let missed =
        (if is_unavailable (answers attempt)
          then record m { busy = suc m.busy }
          else record m { error = suc m.error }) in
      let rest = post_until left (suc attempt) missed in
      if is_accepted (answers attempt) then (record m { accepted = suc m.accepted }, true) else rest

  -- send: the metrics, and whether the batch is enqueued on this node.
  unfoldable pub send : HandoffConfiguration → HandoffMetrics → HandoffMetrics × Bool
  unfolding post_until
  send cfg m =
      if not cfg.http_enabled
      then (record m { enqueued_locally = suc m.enqueued_locally }, true)
      else (let (posted, accepted) = post_until cfg.max_attempts 1 m in
          if accepted
          then (posted, false)
          else if cfg.local_fallback
          then (
            record posted {
              failures = suc posted.failures;
              enqueued_locally = suc posted.enqueued_locally;
            },
            true,
          )
          else (record posted { failures = suc posted.failures }, false))

  -- Whether one of the answers from `attempt` on, `left` of them, accepts.
  unfoldable pub some_accepted : ℕ → ℕ → Bool
  some_accepted zero attempt = false
  some_accepted (suc left) attempt =
      is_accepted (answers attempt) || some_accepted left (suc attempt)

  post_until_lem :
      (left attempt : ℕ) (m : HandoffMetrics)
      → let (p, accepted) = post_until left attempt m in
        (accepted ≡ some_accepted left attempt)
        × (p.accepted + p.busy + p.error ≤ m.accepted + m.busy + m.error + left)
        × (p.enqueued_locally ≡ m.enqueued_locally)
        × (p.failures ≡ m.failures)
  unfolding post_until some_accepted
  post_until_lem zero attempt m = (refl, omega arith, refl, refl)
  post_until_lem (suc left) attempt m =
      let busier = post_until_lem left (suc attempt) (record m { busy = suc m.busy }) in
      let worse = post_until_lem left (suc attempt) (record m { error = suc m.error }) in
      elim (Bool-cases (is_accepted (answers attempt))) [
        | inl yes_it_is ↦ rw yes_it_is (refl, omega arith, refl, refl)
        | inr missed ↦ elim (Bool-cases (is_unavailable (answers attempt))) [
          | inl unavailable ↦
              rw (missed, unavailable) (busier.0, omega (arith, busier.1), busier.2, busier.3)
          | inr failed ↦ rw (missed, failed) (worse.0, omega (arith, worse.1), worse.2, worse.3)
        ]
      ]

  -- A batch is enqueued on this node exactly if HTTP is off, or no attempt is accepted and the
  -- fallback is on; at most the configured number of requests is made; and a failure is counted
  -- exactly if HTTP is on and no attempt is accepted.
  pub send_lem :
      (cfg : HandoffConfiguration) (m : HandoffMetrics)
      → let (p, locally) = send cfg m in
        let accepted = some_accepted cfg.max_attempts 1 in
        (locally ≡ (not cfg.http_enabled || (not accepted && cfg.local_fallback)))
        × (p.accepted + p.busy + p.error ≤ m.accepted + m.busy + m.error + cfg.max_attempts)
        × (p.failures ≡ (if cfg.http_enabled && not accepted then suc m.failures else m.failures))
        × (p.enqueued_locally ≡ (if locally then suc m.enqueued_locally else m.enqueued_locally))
  unfolding send
  send_lem cfg m = ground (arith, post_until_lem cfg.max_attempts 1 m)
