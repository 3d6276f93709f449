-- ===== src/Logger/FreeList/Order.antt =====
-- FreeList alone: a stack of the nodes that it holds.
use my_server.Common.{
  ℕ, Option, none, some, true, false, List, [], ◌∷◌, ◌≡◌, refl, update, update_ne, update_self,
  NotIn, IsDistinct,
}
use my_server.Logger.FreeList.{new, FreeList, push, try_pop, empty}

-- From `h` on the links run through `xs`.
abbrev pub IsStacked : (ℕ → Option ℕ) → Option ℕ → List ℕ → Type 0
IsStacked next h [] = h ≡ none
IsStacked next h (x ∷ xs) = (h ≡ some x) × IsStacked next (next x) xs

pub record IsStack (l : FreeList) (xs : List ℕ) : Type 0 where
  pub stacked : IsStacked l.free_next l.head xs
  pub distinct : IsDistinct xs

pub new-IsStack : IsStack new []
unfolding new
new-IsStack = record { stacked = refl; distinct = tt }

-- A link outside the list may change.
pub update-IsStacked :
    (next : ℕ → Option ℕ) (n : ℕ) (v h : Option ℕ) (xs : List ℕ)
    → NotIn n xs
    → IsStacked next h xs
    → IsStacked (update next n v) h xs
update-IsStacked next n v h [] f s = s
update-IsStacked next n v h (x ∷ xs) (ne, f) (e, s) =
    (e, rw (update_ne next n v x ne) (update-IsStacked next n v (next x) xs f s))

-- Pushing a node that the list does not hold puts it on top.
pub push-IsStack :
    (n : ℕ) (l : FreeList) (xs : List ℕ) → NotIn n xs → IsStack l xs → IsStack (push n l) (n ∷ xs)
unfolding push
push-IsStack n l xs f s = record {
  stacked = (
    refl,
    rw (update_self l.free_next n l.head)
        (update-IsStacked l.free_next n l.head l.head xs f s.stacked),
  );
  distinct = (f, s.distinct);
}

-- What a pop of a list that holds `xs` comes to.
pub data Taken (l : FreeList) : List ℕ → Type 0 where
  took_none : try_pop l ≡ none → empty l ≡ true → Taken l []
  took :
      (h : ℕ) (xs : List ℕ) (r : FreeList)
      → try_pop l ≡ some (h, r)
      → empty l ≡ false
      → IsStack r xs
      → Taken l (h ∷ xs)

pub try_pop_lem : (l : FreeList) (xs : List ℕ) → IsStack l xs → Taken l xs
unfolding try_pop empty
try_pop_lem l [] s = took_none (rw s.stacked) (rw s.stacked)
try_pop_lem l (x ∷ xs) s =
    took x xs (record l { head = l.free_next x }) (rw s.stacked.0) (rw s.stacked.0)
      (record { stacked = s.stacked.1; distinct = s.distinct.1 })

pub try_pop-cons :
    (l : FreeList) (x : ℕ) (xs : List ℕ)
    → IsStack l (x ∷ xs)
    → (r : FreeList) × (try_pop l ≡ some (x, r)) × IsStack r xs
unfolding try_pop
try_pop-cons l x xs s = (
  record l { head = l.free_next x },
  rw s.stacked.0,
  record { stacked = s.stacked.1; distinct = s.distinct.1 },
)

-- Pushing a node that the list does not hold and popping again gives the node and the same stack.
pub try_pop-push :
    (n : ℕ) (l : FreeList) (xs : List ℕ)
    → NotIn n xs
    → IsStack l xs
    → (r : FreeList) × (try_pop (push n l) ≡ some (n, r)) × IsStack r xs
try_pop-push n l xs f s = elim (try_pop_lem (push n l) (n ∷ xs) (push-IsStack n l xs f s)) [
  | took h ys r e b k ↦ (r, e, k)
]
