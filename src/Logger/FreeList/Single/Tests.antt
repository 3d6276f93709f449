-- ===== src/Logger/FreeList/Single/Tests.antt =====
-- Two pushes that run into one another, and a pop (lockfree_queue.hpp).
use my_server.Common.{List, [], ◌∷◌, refl, true, ℕ, some, none}
use my_server.Common.Traces.{Trace}
use my_server.Logger.FreeList.{new}
use my_server.Logger.FreeList.Order.{IsStack}
use my_server.Logger.FreeList.Single.{
  Shared, Event, pushed, popped, silent, Step, push_link, push_swap, push_again, pop_load, pop_link,
  pop_swap, StackStep,
}
use my_server.Logger.FreeList.Single.Refines.{unused, single_pop_linearizes}

-- Both pushes link to the empty list; the second comes first, and the first links again.
abbrev seen : List Event
seen = silent ∷ silent ∷ pushed 2 ∷ silent ∷ pushed 1 ∷ silent ∷ silent ∷ popped (some 1) ∷ []

ran : (t : Shared) × Trace Step (unused (λ n. true)) seen t
unfolding new
ran = (
  _,
  Trace.later _ (push_link 1 refl refl) (
      Trace.later _ (push_link 2 refl refl) (
        Trace.later _ (push_swap 2 none refl refl refl) (
          Trace.later _ (push_again 1 none refl refl) (
            Trace.later _ (push_swap 1 (some 2) refl refl refl) (
              Trace.later _ (pop_load 1 refl refl refl) (
                Trace.later _ (pop_link 1 refl refl)
                  (Trace.later _ (pop_swap 1 (some 2) refl refl refl) Trace.here))))))),
)

single_pop_linearizes_example : (xs : List ℕ) × Trace StackStep [] seen xs × IsStack ran.0.list xs
single_pop_linearizes_example = single_pop_linearizes (λ n. true) ran.0 ran.1
