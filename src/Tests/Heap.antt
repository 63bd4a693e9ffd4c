-- ===== src/Tests/Heap.antt =====
-- A heap as the standard library documents it: the list sorted by Less of dispatcher/queue.go.
use mathlib.Core.List.Perm
use webhook_broker.Base.{
  true, false, if◌then◌else◌, Option, none, some, List, [], ◌∷◌, Perm, All, ◌≡◌, refl, arith,
  Bool-cases, inl, inr,
}
use webhook_broker.Dispatcher.Queue.{Job, less, HeapPackage}

abbrev Sorted : List Job → Type 0
Sorted [] = Unit
Sorted (x ∷ q) = All (λ y. less y x ≡ false) q × Sorted q

abbrev sorted_push : List Job → Job → List Job
sorted_push [] x = x ∷ []
sorted_push (y ∷ q) x = let rest = sorted_push q x in if less x y then x ∷ y ∷ q else y ∷ rest

abbrev sorted_pop : List Job → Option (Job × List Job)
sorted_pop [] = none
sorted_pop (x ∷ q) = some (x, q)

push-All : (P : Job → Type 0) (q : List Job) (x : Job) → P x → All P q → All P (sorted_push q x)
push-All P [] x px h = (px, tt)
push-All P (y ∷ q) x px h = elim (Bool-cases (less x y)) [
  | inl before ↦ rw before (px, h)
  | inr after ↦ rw after (h.0, push-All P q x px h.1)
]

All-imp : (P Q : Job → Type 0) → ((y : Job) → P y → Q y) → (q : List Job) → All P q → All Q q
All-imp P Q f [] h = tt
All-imp P Q f (y ∷ q) h = (f y h.0, All-imp P Q f q h.1)

less_after : (x y z : Job) → less x y ≡ true → less z y ≡ false → less z x ≡ false
unfolding less
less_after x y z before after = ground arith

less_asym : (x y : Job) → less x y ≡ true → less y x ≡ false
unfolding less
less_asym x y before = ground arith

pub push-Sorted : (q : List Job) (x : Job) → Sorted q → Sorted (sorted_push q x)
push-Sorted [] x s = (tt, tt)
push-Sorted (y ∷ q) x s = elim (Bool-cases (less x y)) [
  | inl before ↦ rw before (
    (
      less_asym x y before,
      All-imp (λ z. less z y ≡ false) (λ z. less z x ≡ false)
          (λ z after. less_after x y z before after) q s.0,
    ),
    s,
  )
  | inr after ↦ rw after (push-All (λ z. less z y ≡ false) q x after s.0, push-Sorted q x s.1)
]

pub push-Perm : (q : List Job) (x : Job) → Perm (sorted_push q x) (x ∷ q)
push-Perm [] x = Perm.refl (x ∷ [])
push-Perm (y ∷ q) x = elim (Bool-cases (less x y)) [
  | inl before ↦ rw before (Perm.refl (x ∷ y ∷ q))
  | inr after ↦ rw after (Perm.trans (Perm.cons y (push-Perm q x)) (Perm.swap x y q))
]

abbrev pub sorted_heap : HeapPackage
sorted_heap = record {
  IsHeap = Sorted;
  push = sorted_push;
  pop = sorted_pop;
  empty-IsHeap = tt;
  push-IsHeap = push-Sorted;
  push-perm = push-Perm;
  root_least = λ x q s. s.0;
  pop_root = λ x q s. (q, refl, s.1, Perm.refl q);
}
