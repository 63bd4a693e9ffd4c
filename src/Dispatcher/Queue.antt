-- ===== src/Dispatcher/Queue.antt =====
-- dispatcher/queue.go and the Job of dispatcher/common.go.
-- A job is a pointer: `ptr` is its address, where its mutable field Data lives (see Lanes), and
-- Priority and seq never change once it waits. container/heap is a parameter, `HeapPackage`.
use mathlib.Core.List.Perm
use mathlib.Core.List.{length as unary_length}
use native.Mathlib.Bridge.{from_ℕ}
use webhook_broker.Base.{
  ℕ, suc, Bool, false, ◌≡◌, refl, ap, sym, ◌∙◌, ◌==◌, ltb, if◌then◌else◌, Option, some, List, [],
  ◌∷◌, Perm, length, All,
}

pub record Job : Type 0 where
  pub ptr : ℕ
  pub priority : ℕ
  pub seq : ℕ

-- Less: the higher priority first, and first in, first out for equal priority.
unfoldable pub less : Job → Job → Bool
less a b = if a.priority == b.priority then ltb a.seq b.seq else ltb b.priority a.priority

-- Push and Pop of container/heap over `jobs`, with what their documentation states: Push and Pop
-- keep the heap, the least element by Less is the root, at index 0, and Pop removes it.
pub record HeapPackage : Type 1 where
  pub IsHeap : List Job → Type 0
  pub push : List Job → Job → List Job
  pub pop : List Job → Option (Job × List Job)
  pub empty-IsHeap : IsHeap []
  pub push-IsHeap : (q : List Job) (x : Job) → IsHeap q → IsHeap (push q x)
  pub push-perm : (q : List Job) (x : Job) → Perm (push q x) (x ∷ q)
  pub root_least : (x : Job) (q : List Job) → IsHeap (x ∷ q) → All (λ y. less y x ≡ false) q
  pub pop_root :
      (x : Job) (q : List Job)
      → IsHeap (x ∷ q)
      → (rest : List Job) × (pop (x ∷ q) ≡ some (x, rest)) × IsHeap rest × Perm rest q

native_length {ℓ} : {A : Type ℓ} (xs : List A) → from_ℕ (unary_length xs) ≡ length xs
native_length [] = refl
native_length (x ∷ xs) = ap suc (native_length xs)

pub length-perm {ℓ} : {A : Type ℓ} (xs ys : List A) → Perm xs ys → length xs ≡ length ys
length-perm xs ys p = sym (native_length xs) ∙ (ap from_ℕ (Perm.length-eq p) ∙ native_length ys)
