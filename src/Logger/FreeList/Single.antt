-- ===== src/Logger/FreeList/Single.antt =====
-- FreeList of modules/logger/include/logger/core/lockfree_queue.hpp between its atomic accesses, with
-- one caller of try_pop and any number of calls of push: what a logger has that one thread logs to.
-- The link of a node that is not in the list is its pusher's own, so loading the head and writing the
-- link are one step. A weak exchange may fail without a reason.
pub mod Kept
pub mod Refines
mod Tests
use my_server.Common.{ℕ, Option, none, some, Bool, true, false, List, [], ◌∷◌, ◌≡◌, update, NotIn}
use my_server.Logger.FreeList.{FreeList}
use my_server.Logger.FreeList.Order.{IsStack}

-- Where try_pop stands: not called, with the head that it loaded, or with its link as well.
pub data PopAt : Type 0 where
  idle : PopAt
  loaded : ℕ → PopAt
  linked : ℕ → Option ℕ → PopAt

-- `owned` says which nodes callers have and may push, and `pushing` has the heads that pushes expect.
pub record Shared : Type 0 where
  pub list : FreeList
  pub pop_at : PopAt
  pub pushing : ℕ → Option (Option ℕ)
  pub owned : ℕ → Bool

-- What the callers see: a node is in the list, a call of try_pop returns, or nothing.
pub data Event : Type 0 where
  pushed : ℕ → Event
  popped : Option ℕ → Event
  silent : Event

abbrev pub linked_to : Shared → ℕ → FreeList
linked_to s n = record (s.list) { free_next = update s.list.free_next n s.list.head }

pub data Step (s : Shared) : Event → Shared → Type 0 where
  push_link :
      {t : Shared} (n : ℕ)
      → s.owned n ≡ true
      → t ≡ record s {
        list = linked_to s n;
        pushing = update s.pushing n (some s.list.head);
        owned = update s.owned n false;
      }
      → Step s silent t
  push_swap :
      {t : Shared} (n : ℕ) (h : Option ℕ)
      → s.pushing n ≡ some h
      → s.list.head ≡ h
      → t ≡ record s { list = record (s.list) { head = some n }; pushing = update s.pushing n none }
      → Step s (pushed n) t
  push_again :
      {t : Shared} (n : ℕ) (h : Option ℕ)
      → s.pushing n ≡ some h
      → t ≡ record s { list = linked_to s n; pushing = update s.pushing n (some s.list.head) }
      → Step s silent t
  pop_load :
      {t : Shared} (h : ℕ)
      → s.pop_at ≡ idle
      → s.list.head ≡ some h
      → t ≡ record s { pop_at = loaded h }
      → Step s silent t
  pop_link :
      {t : Shared} (h : ℕ)
      → s.pop_at ≡ loaded h
      → t ≡ record s { pop_at = linked h (s.list.free_next h) }
      → Step s silent t
  pop_swap :
      {t : Shared} (h : ℕ) (next : Option ℕ)
      → s.pop_at ≡ linked h next
      → s.list.head ≡ some h
      → t ≡ record s {
        list = record (s.list) { head = next };
        pop_at = idle;
        owned = update s.owned h true;
      }
      → Step s (popped (some h)) t
  pop_again :
      {t : Shared} (h g : ℕ) (next : Option ℕ)
      → s.pop_at ≡ linked h next
      → s.list.head ≡ some g
      → t ≡ record s { pop_at = loaded g }
      → Step s silent t
  pop_none : {t : Shared} → s.pop_at ≡ idle → s.list.head ≡ none → t ≡ s → Step s (popped none) t
  pop_gone :
      {t : Shared} (h : ℕ) (next : Option ℕ)
      → s.pop_at ≡ linked h next
      → s.list.head ≡ none
      → t ≡ record s { pop_at = idle }
      → Step s (popped none) t

-- A stack whose calls take effect at once.
pub data StackStep (xs : List ℕ) : Event → List ℕ → Type 0 where
  pushes : (n : ℕ) → NotIn n xs → StackStep xs (pushed n) (n ∷ xs)
  pops : {ys : List ℕ} (n : ℕ) → xs ≡ n ∷ ys → StackStep xs (popped (some n)) ys
  finds_none : xs ≡ [] → StackStep xs (popped none) xs
  rests : StackStep xs silent xs

-- What try_pop has read is still so: its node is in the list, with the link that it read.
abbrev pub IsCurrent : FreeList → List ℕ → PopAt → Type 0
IsCurrent l xs idle = Unit {0}
IsCurrent l xs (loaded h) = NotIn h xs → ⊥
IsCurrent l xs (linked h next) = (NotIn h xs → ⊥) × (l.free_next h ≡ next)

-- The list is the stack `xs`; nodes that are owned or being pushed are outside it.
pub record Holds (s : Shared) (xs : List ℕ) : Type 0 where
  pub stack : IsStack s.list xs
  pub current : IsCurrent s.list xs s.pop_at
  pub owned_out : (n : ℕ) → s.owned n ≡ true → NotIn n xs × (s.pushing n ≡ none)
  pub pushing_out :
      (n : ℕ) (h : Option ℕ) → s.pushing n ≡ some h → NotIn n xs × (s.list.free_next n ≡ h)
