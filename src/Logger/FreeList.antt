-- ===== src/Logger/FreeList.antt =====
-- The class FreeList of modules/logger/include/logger/core/lockfree_queue.hpp. Nodes are numbers,
-- and `free_next` is the field of that name of every FreeNode. The calls here run alone; Race takes
-- one apart.
pub mod Order
pub mod Race
pub mod Single
mod Tests
use my_server.Common.{ℕ, Option, none, some, Bool, true, false, update}

pub record FreeList : Type 0 where
  pub free_next : ℕ → Option ℕ
  pub head : Option ℕ

unfoldable pub new : FreeList
new = record { free_next = λ n. none; head = none }

unfoldable pub push : ℕ → FreeList → FreeList
push n l = record { free_next = update l.free_next n l.head; head = some n }

unfoldable pub try_pop : FreeList → Option (ℕ × FreeList)
try_pop l = elim l.head [ none ↦ none | some h ↦ some (h, record l { head = l.free_next h }) ]

unfoldable pub empty : FreeList → Bool
empty l = elim l.head [ none ↦ true | some h ↦ false ]
