-- ===== src/Logger/FreeList/Single/Refines.antt =====
-- FreeList with one caller of try_pop (lockfree_queue.hpp) is a stack whose calls take effect at once.
use my_server.Logger.FreeList.Single.Kept.{
  links-Holds, pushes-Holds, pops-Holds, loads-Holds, head-in,
}
use my_server.Common.{ℕ, none, some, Bool, List, [], ◌∷◌, ◌≡◌, refl, sym, ap, ◌∙◌, arith, subst}
use my_server.Common.Traces.{Trace, Trace-follows}
use my_server.Logger.FreeList.{FreeList, new}
use my_server.Logger.FreeList.Order.{IsStack, new-IsStack}
use my_server.Logger.FreeList.Single.{
  idle, loaded, linked, Shared, Event, Step, push_link, push_swap, push_again, pop_load, pop_link,
  pop_swap, pop_again, pop_none, pop_gone, StackStep, pushes, pops, finds_none, rests, IsCurrent,
  Holds,
}

-- A list with a head is not empty.
top-cons :
    (l : FreeList) (xs : List ℕ) (h : ℕ)
    → IsStack l xs
    → l.head ≡ some h
    → (ys : List ℕ) × (xs ≡ h ∷ ys)
top-cons l [] h k e = absurd (cc (sym e ∙ k.stacked))
top-cons l (x ∷ xs) h k e = (xs, ap (λ y. y ∷ xs) (cc (sym k.stacked.0 ∙ e)))

no_top-nil : (l : FreeList) (xs : List ℕ) → IsStack l xs → l.head ≡ none → xs ≡ []
no_top-nil l [] k e = refl
no_top-nil l (x ∷ xs) k e = absurd (cc (sym k.stacked.0 ∙ e))

Step-StackStep :
    (s t : Shared) (e : Event) (xs : List ℕ)
    → Holds s xs
    → Step s e t
    → (ys : List ℕ) × StackStep xs e ys × Holds t ys
Step-StackStep s t _ xs k (push_link n o w) =
    (xs, rests, rw w (links-Holds s xs n _ (k.owned_out n o).0 (λ m o'. ground arith) k))
Step-StackStep s t _ xs k (push_swap n h e top w) =
    (n ∷ xs, pushes n (k.pushing_out n h e).0, rw w (pushes-Holds s xs n h e top k))
Step-StackStep s t _ xs k (push_again n h e w) = (
  xs,
  rests,
  rw w (
      links-Holds s xs n s.owned (k.pushing_out n h e).0
        (λ m o. (o, λ same. ground (arith, e, (k.owned_out m o).1))) k),
)
Step-StackStep s t _ xs k (pop_load h at top w) =
    (xs, rests, rw w (loads-Holds s xs (loaded h) (head-in s.list xs h k.stack top) k))
Step-StackStep s t _ xs k (pop_link h at w) = (
  xs,
  rests,
  rw w (
      loads-Holds s xs (linked h (s.list.free_next h))
        (subst (IsCurrent s.list xs) at k.current, refl) k),
)
Step-StackStep s t _ xs k (pop_swap h next at top w) =
    let (ys, shape) = top-cons s.list xs h k.stack top in
    (ys, pops h shape, rw w (pops-Holds s ys h next at (subst (Holds s) shape k)))
Step-StackStep s t _ xs k (pop_again h g next at top w) =
    (xs, rests, rw w (loads-Holds s xs (loaded g) (head-in s.list xs g k.stack top) k))
Step-StackStep s t _ xs k (pop_none at top w) =
    (xs, finds_none (no_top-nil s.list xs k.stack top), rw w k)
Step-StackStep s t _ xs k (pop_gone h next at top w) =
    (xs, finds_none (no_top-nil s.list xs k.stack top), rw w (loads-Holds s xs idle tt k))

-- An empty list, and callers that have the nodes that `owned` tells.
abbrev pub unused : (ℕ → Bool) → Shared
unused owned = record { list = new; pop_at = idle; pushing = λ n. none; owned = owned }

-- With one caller of try_pop, whatever calls of push run into one another and into it, what the callers
-- of an empty list see is what a stack shows whose calls take effect at once: try_pop returns the
-- latest node pushed and not popped, or nothing exactly when there is none, and no node is handed out
-- that is not in the list.
pub single_pop_linearizes :
    {es : List Event} (owned : ℕ → Bool) (t : Shared)
    → Trace Step (unused owned) es t
    → (xs : List ℕ) × Trace StackStep [] es xs × IsStack t.list xs
single_pop_linearizes owned t tr =
    let f =
      Trace-follows Step StackStep Holds Step-StackStep (unused owned) t []
        (record {
          stack = new-IsStack;
          current = tt;
          owned_out = λ n o. (tt, refl);
          pushing_out = λ n h e. absurd (cc (e));
        })
        tr in
    (f.0, f.1, f.2.stack)
