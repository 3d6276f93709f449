-- ===== src/Logger/FreeList/Race.antt =====
-- FreeList::try_pop between its atomic accesses: one slow caller, which has read the head and its
-- link and not yet swapped, and other callers, whose calls run whole. `held` says which nodes a
-- caller has been given and not returned.
use my_server.Common.{
  ℕ, Option, none, some, Bool, true, false, List, ◌∷◌, ◌≡◌, ◌≢◌, refl, arith, update,
}
use my_server.Logger.FreeList.{FreeList, push, try_pop}
use my_server.Logger.FreeList.Order.{IsStack}

pub record Race : Type 0 where
  pub list : FreeList
  pub slow : Option (ℕ × Option ℕ)
  pub held : ℕ → Bool

pub data Step (s t : Race) : Type 0 where
  -- The slow caller loads the head and reads its link.
  load :
      (h : ℕ)
      → s.list.head ≡ some h
      → t ≡ record s { slow = some (h, s.list.free_next h) }
      → Step s t
  -- Its compare-and-exchange finds the head that it loaded.
  swap :
      (h : ℕ) (next : Option ℕ)
      → s.slow ≡ some (h, next)
      → s.list.head ≡ some h
      → t
        ≡ record { list = record s.list { head = next }; slow = none; held = update s.held h true }
      → Step s t
  -- It finds another, and the caller starts again.
  retry :
      (h : ℕ) (next : Option ℕ)
      → s.slow ≡ some (h, next)
      → s.list.head ≢ some h
      → t ≡ record s { slow = none }
      → Step s t
  -- Another caller takes a node.
  take_node :
      (h : ℕ) (l : FreeList)
      → try_pop s.list ≡ some (h, l)
      → t ≡ record s { list = l; held = update s.held h true }
      → Step s t
  -- One returns a node that it holds.
  give_node :
      (n : ℕ)
      → s.held n ≡ true
      → t ≡ record s { list = push n s.list; held = update s.held n false }
      → Step s t

pub data Steps (s : Race) : Race → Type 0 where
  here : Steps s s
  next : {t u : Race} → Steps s t → Step t u → Steps s u

-- From any list of two nodes or more, with no slow call under way, there are steps after which the
-- second node is held by a caller and is at the head of the list as well, so that the next pop gives
-- it to a second caller.
pub hands_out_twice :
    (s : Race) (x y : ℕ) (rest : List ℕ)
    → IsStack s.list (x ∷ y ∷ rest)
    → s.slow ≡ none
    → (t : Race) × Steps s t × (t.held y ≡ true) × ((r : FreeList) × (try_pop t.list ≡ some (y, r)))
unfolding try_pop push
hands_out_twice s x y rest k z = (
  last,
  next (next (next (next (next here loaded) taken) taken_too) given) swapped,
  ground arith,
  (record last.list { head = last.list.free_next y }, rw k.stacked.1.0),
)
  where
    s1 : Race
    s1 = record s { slow = some (x, s.list.free_next x) }

    s2 : Race
    s2 = record s1 {
      list = record s.list { head = s.list.free_next x };
      held = update s.held x true;
    }

    s3 : Race
    s3 = record s2 {
      list = record s.list { head = s.list.free_next y };
      held = update s2.held y true;
    }

    s4 : Race
    s4 = record s3 { list = push x s3.list; held = update s3.held x false }

    last : Race
    last = record {
      list = record s4.list { head = s.list.free_next x };
      slow = none;
      held = update s4.held x true;
    }

    loaded : Step s s1
    loaded = load x k.stacked.0 refl

    taken : Step s1 s2
    taken = take_node x (record s.list { head = s.list.free_next x }) (rw k.stacked.0) refl

    taken_too : Step s2 s3
    taken_too = take_node y (record s.list { head = s.list.free_next y }) (rw k.stacked.1.0) refl

    given : Step s3 s4
    given = give_node x (ground arith) refl

    swapped : Step s4 last
    swapped = swap x (s.list.free_next x) refl refl refl
