-- ===== src/Logger/MpscQueue/Traffic.antt =====
-- MpscQueue under any interleaving of the two halves of its pushes and of the consumer's pops.
use my_server.Common.{
  ℕ, Option, none, some, List, [], ◌∷◌, ◌++◌, ◌≡◌, refl, sym, ap, ◌∙◌, update, NotIn, arith, subst,
  append_assoc,
}
use my_server.Logger.MpscQueue.{MpscQueue, new, exchange, publish, pop, popped}
use my_server.Logger.MpscQueue.Fifo.{
  new-Holds, must_wait, took_none, Holds, exchange-Holds, publish-Holds, pop_lem, took,
}

-- `pushed` has the nodes in the order of their exchanges, and `taken` those that pops gave.
pub record Traffic : Type 0 where
  pub queue : MpscQueue
  pub pending : ℕ → Option ℕ
  pub pushed : List ℕ
  pub taken : List ℕ

pub data Step (s t : Traffic) : Type 0 where
  -- A producer pushes only a node that is not in the queue, nor the one that was taken last.
  exchanges :
      (n : ℕ)
      → ((xs : List ℕ) → s.pushed ≡ s.taken ++ xs → NotIn n (s.queue.head ∷ xs))
      → t ≡ record {
        queue = (exchange n s.queue).0;
        pending = update s.pending (exchange n s.queue).1 (some n);
        pushed = s.pushed ++ (n ∷ []);
        taken = s.taken;
      }
      → Step s t
  publishes :
      (prev n : ℕ)
      → s.pending prev ≡ some n
      → t ≡ record s { queue = publish prev n s.queue; pending = update s.pending prev none }
      → Step s t
  pops :
      (n : ℕ) (q : MpscQueue)
      → pop s.queue ≡ popped n q
      → t ≡ record s { queue = q; taken = s.taken ++ (n ∷ []) }
      → Step s t

pub data Reach : Traffic → Type 0 where
  here : Reach (record { queue = new; pending = λ a. none; pushed = []; taken = [] })
  next : {s t : Traffic} → Reach s → Step s t → Reach t

-- What was taken, then what the queue holds, is what was pushed.
pub record IsFair (s : Traffic) : Type 0 where
  pub waiting : List ℕ
  pub in_order : s.pushed ≡ s.taken ++ waiting
  pub holds : Holds s.queue s.pending waiting

popped_injective : (m n : ℕ) (r q : MpscQueue) → popped m r ≡ popped n q → (m ≡ n) × (r ≡ q)
popped_injective m n r q h = ground arith

pops-IsFair :
    (s : Traffic) (n : ℕ) (q : MpscQueue) (v : IsFair s)
    → pop s.queue ≡ popped n q
    → IsFair (record s { queue = q; taken = s.taken ++ (n ∷ []) })
pops-IsFair s n q v h =
    elim (pop_lem s.queue s.pending v.waiting v.holds)
        as (λ xs z.
          s.pushed ≡ s.taken ++ xs → IsFair (record s { queue = q; taken = s.taken ++ (n ∷ []) })) [
            | took_none e b ↦ λ o. absurd (cc (sym h ∙ e))
            | took m xs r e b i k ↦ λ o. record {
              waiting = xs;
              in_order =
                  o
                  ∙ sym (
                      append_assoc s.taken (n ∷ []) xs
                      ∙ ap (λ a. s.taken ++ (a ∷ xs))
                          (sym (popped_injective m n r q (sym e ∙ h)).0));
              holds =
                  subst (λ (a : MpscQueue). Holds a s.pending xs)
                    (popped_injective m n r q (sym e ∙ h)).1 k;
            }
            | must_wait m xs r e b p k ↦ λ o. absurd (cc (sym h ∙ e))
          ]
      v.in_order

Step-IsFair : (s t : Traffic) → Step s t → IsFair s → IsFair t
Step-IsFair s t (exchanges n f e) v = subst IsFair (sym e) (record {
  waiting = v.waiting ++ (n ∷ []);
  in_order = ap (λ r. r ++ (n ∷ [])) v.in_order ∙ append_assoc s.taken v.waiting (n ∷ []);
  holds = exchange-Holds n s.queue s.pending v.waiting (f v.waiting v.in_order) v.holds;
})
Step-IsFair s t (publishes prev n h e) v = subst IsFair (sym e) (record {
  waiting = v.waiting;
  in_order = v.in_order;
  holds = publish-Holds prev n s.queue s.pending v.waiting h v.holds;
})
Step-IsFair s t (pops n q h e) v = subst IsFair (sym e) (pops-IsFair s n q v h)

-- However the two halves of any number of pushes and the pops interleave, from a new queue on, the
-- nodes taken are the first ones pushed, in the order of the exchanges, and the queue holds exactly
-- the others, if no push is of a node that is in the queue or was taken last.
pub Reach-IsFair : {s : Traffic} → Reach s → IsFair s
Reach-IsFair here = record { waiting = []; in_order = refl; holds = new-Holds }
Reach-IsFair (next {s = s} {t = t} r m) = Step-IsFair s t m (Reach-IsFair r)
