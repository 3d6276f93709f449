-- ===== src/Logger/FreeList/Single/Kept.antt =====
-- What the steps of push and try_pop (lockfree_queue.hpp) do to the stack that the list holds.
use my_server.Common.{
  Option-cases, ℕ, Option, none, some, Bool, true, List, [], ◌∷◌, ◌≡◌, ◌≢◌, refl, sym, ◌∙◌, inl,
  inr, arith, update, update_ne, NotIn, ℕ_discrete, subst,
}
use my_server.Logger.FreeList.{FreeList}
use my_server.Logger.FreeList.Order.{IsStacked, IsStack, update-IsStacked}
use my_server.Logger.FreeList.Single.{
  PopAt, idle, loaded, linked, Shared, linked_to, IsCurrent, Holds,
}

-- The link of a node outside the list may change.
relink-IsStack :
    (l : FreeList) (xs : List ℕ) (n : ℕ) (v : Option ℕ)
    → NotIn n xs
    → IsStack l xs
    → IsStack (record l { free_next = update l.free_next n v }) xs
relink-IsStack l xs n v out k = record {
  stacked = update-IsStacked l.free_next n v l.head xs out k.stacked;
  distinct = k.distinct;
}

relink-IsCurrent :
    (l : FreeList) (xs : List ℕ) (n : ℕ) (v : Option ℕ) (p : PopAt)
    → NotIn n xs
    → IsCurrent l xs p
    → IsCurrent (record l { free_next = update l.free_next n v }) xs p
relink-IsCurrent l xs n v idle out c = tt
relink-IsCurrent l xs n v (loaded h) out c = c
relink-IsCurrent l xs n v (linked h next) out (c, e) =
    (c, update_ne l.free_next n v h (λ same. c (subst (λ m. NotIn m xs) same out)) ∙ e)

-- A node on top keeps the others in the list.
cons-IsCurrent :
    (l : FreeList) (xs : List ℕ) (n : ℕ) (h : Option ℕ) (p : PopAt)
    → IsCurrent l xs p
    → IsCurrent (record l { head = h }) (n ∷ xs) p
cons-IsCurrent l xs n h idle c = tt
cons-IsCurrent l xs n h (loaded g) c = λ out. c out.1
cons-IsCurrent l xs n h (linked g next) (c, e) = ((λ out. c out.1), e)

-- The head of the list is in it.
pub head-in : (l : FreeList) (xs : List ℕ) (h : ℕ) → IsStack l xs → l.head ≡ some h → NotIn h xs → ⊥
head-in l [] h k e out = cc (sym e ∙ k.stacked)
head-in l (x ∷ xs) h k e out = out.0 (cc (sym e ∙ k.stacked.0))

-- A push writes its link; `owned` has the nodes that callers have left.
pub links-Holds :
    (s : Shared) (xs : List ℕ) (n : ℕ) (owned : ℕ → Bool)
    → NotIn n xs
    → ((m : ℕ) → owned m ≡ true → (s.owned m ≡ true) × (n ≢ m))
    → Holds s xs
    → Holds
        (record s {
          list = linked_to s n;
          pushing = update s.pushing n (some s.list.head);
          owned = owned;
        })
        xs
links-Holds s xs n owned out fewer k = record {
  stack = relink-IsStack s.list xs n s.list.head out k.stack;
  current = relink-IsCurrent s.list xs n s.list.head s.pop_at out k.current;
  owned_out = λ m o.
      let f = fewer m o in
      let old = k.owned_out m f.0 in (old.0, update_ne s.pushing n _ m f.1 ∙ old.1);
  pushing_out = λ m h e. elim (ℕ_discrete n m) [
    | yes same ↦ (subst (λ i. NotIn i xs) same out, ground (arith, e, same))
    | no ne ↦ (
      (k.pushing_out m h (ground (arith, e))).0,
      update_ne s.list.free_next n s.list.head m ne ∙ (k.pushing_out m h (ground (arith, e))).1,
    )
  ];
}

-- The exchange of a push finds the head that its link has.
pub pushes-Holds :
    (s : Shared) (xs : List ℕ) (n : ℕ) (h : Option ℕ)
    → s.pushing n ≡ some h
    → s.list.head ≡ h
    → Holds s xs
    → Holds
        (record s { list = record (s.list) { head = some n }; pushing = update s.pushing n none })
        (n ∷ xs)
pushes-Holds s xs n h e top k =
    let (out, link) = k.pushing_out n h e in
    record {
      stack = record {
        stacked =
            (refl, subst (λ v. IsStacked s.list.free_next v xs) (top ∙ sym link) k.stack.stacked);
        distinct = (out, k.stack.distinct);
      };
      current = cons-IsCurrent s.list xs n (some n) s.pop_at k.current;
      owned_out = λ m o.
          let old = k.owned_out m o in
          let ne : m ≢ n = λ same. ground (arith, old.1, e) in
          ((ne, old.0), update_ne s.pushing n none m (λ same. ne (sym same)) ∙ old.1);
      pushing_out = λ m g f.
          let ne : m ≢ n = λ same. ground (arith, f) in
          let old = k.pushing_out m g (ground (arith, f)) in ((ne, old.0), old.1);
    }

-- The exchange of a pop takes the top, with the link that is still its own.
pub pops-Holds :
    (s : Shared) (ys : List ℕ) (h : ℕ) (next : Option ℕ)
    → s.pop_at ≡ linked h next
    → Holds s (h ∷ ys)
    → Holds
        (record s {
          list = record (s.list) { head = next };
          pop_at = idle;
          owned = update s.owned h true;
        })
        ys
pops-Holds s ys h next at k = record {
  stack = record {
    stacked =
        subst (λ v. IsStacked s.list.free_next v ys)
          (subst (IsCurrent s.list (h ∷ ys)) at k.current).1 k.stack.stacked.1;
    distinct = k.stack.distinct.1;
  };
  current = tt;
  owned_out = λ m o. elim (ℕ_discrete h m) [
    | yes same ↦ (subst (λ i. NotIn i ys) same k.stack.distinct.0, rw (← same) still)
    | no ne ↦ let old = k.owned_out m (ground (arith, o)) in (old.0.1, old.1)
  ];
  pushing_out = λ m g f. let old = k.pushing_out m g f in (old.0.1, old.1);
}
  where
    -- A node of the list is not being pushed.
    still : s.pushing h ≡ none
    still = elim (Option-cases (s.pushing h)) [
      | inl z ↦ z
      | inr (g, e) ↦ absurd ((k.pushing_out h g e).0.0 refl)
    ]

-- The head that try_pop loads is in the list.
pub loads-Holds :
    (s : Shared) (xs : List ℕ) (p : PopAt)
    → IsCurrent s.list xs p
    → Holds s xs
    → Holds (record s { pop_at = p }) xs
loads-Holds s xs p c k = record {
  stack = k.stack;
  current = c;
  owned_out = k.owned_out;
  pushing_out = k.pushing_out;
}
