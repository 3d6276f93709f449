-- ===== src/Logger/MpscQueue/Fifo.antt =====
-- What an MpscQueue holds while pushes are under way. `pending` has the link that a producer has
-- still to write, under the node it writes it to.
use my_server.Common.{
  update_self, fun_ext, ℕ, ℕ_discrete, Option, none, some, true, false, List, [], ◌∷◌, ◌++◌, ◌≡◌,
  ◌≢◌, ◌⊎◌, inl, inr, refl, sym, ap, ◌∙◌, arith, update, update_ne, NotIn, IsDistinct,
  snoc-IsDistinct, append-NotIn_left, subst,
}
use my_server.Logger.MpscQueue.{
  new, stub, push, MpscQueue, exchange, publish, pop, empty, popped, nothing, unpublished,
}

-- `b` follows `a`: the link is written, or a producer will write it.
abbrev pub IsNext : (next pending : ℕ → Option ℕ) → ℕ → ℕ → Type 0
IsNext next pending a b =
    ((next a ≡ some b) × (pending a ≡ none)) ⊎ ((next a ≡ none) × (pending a ≡ some b))

-- The nodes `xs` follow `a` up to `last`.
abbrev pub IsLinked : (next pending : ℕ → Option ℕ) → ℕ → ℕ → List ℕ → Type 0
IsLinked next pending last a [] = (next a ≡ none) × (pending a ≡ none) × (last ≡ a)
IsLinked next pending last a (b ∷ xs) = IsNext next pending a b × IsLinked next pending last b xs

-- The queue holds the nodes `xs`, oldest first, after the node that was popped last.
pub record Holds (q : MpscQueue) (pending : ℕ → Option ℕ) (xs : List ℕ) : Type 0 where
  pub linked : IsLinked q.next pending q.tail q.head xs
  pub distinct : IsDistinct (q.head ∷ xs)
  pub outside : (a : ℕ) → NotIn a (q.head ∷ xs) → pending a ≡ none

pub new-Holds : Holds new (λ a. none) []
unfolding new
new-Holds = record { linked = (refl, refl, refl); distinct = (tt, tt); outside = λ a f. refl }

pub new-head : new.head ≡ stub
unfolding new
new-head = refl

-- The tail is one of the nodes.
tail_apart :
    (next pending : ℕ → Option ℕ) (last a c : ℕ) (xs : List ℕ)
    → IsLinked next pending last a xs
    → NotIn c (a ∷ xs)
    → c ≢ last
tail_apart next pending last a c [] (_, _, e) (ne, _) k = ne (k ∙ e)
tail_apart next pending last a c (b ∷ xs) (_, l) (_, f) k =
    tail_apart next pending last b c xs l f k

-- Links of nodes outside may change.
IsLinked-outside :
    (next pending : ℕ → Option ℕ) (p : ℕ) (u v : Option ℕ) (last a : ℕ) (xs : List ℕ)
    → NotIn p (a ∷ xs)
    → IsLinked next pending last a xs
    → IsLinked (update next p u) (update pending p v) last a xs
IsLinked-outside next pending p u v last a [] (ne, _) (x, y, e) =
    (update_ne next p u a ne ∙ x, update_ne pending p v a ne ∙ y, e)
IsLinked-outside next pending p u v last a (b ∷ xs) (ne, f) (x, l) = (
  rw (update_ne next p u a ne, update_ne pending p v a ne) x,
  IsLinked-outside next pending p u v last b xs f l,
)

-- The exchange appends its node.
IsLinked-exchange :
    (next pending : ℕ → Option ℕ) (n last a : ℕ) (xs : List ℕ)
    → NotIn n (a ∷ xs)
    → IsDistinct (a ∷ xs)
    → pending n ≡ none
    → IsLinked next pending last a xs
    → IsLinked (update next n none) (update pending last (some n)) n a (xs ++ (n ∷ []))
IsLinked-exchange next pending n last a [] (ne, _) d z (x, y, e) =
    (inr (ground arith, ground arith), (ground arith, ground arith, refl))
IsLinked-exchange next pending n last a (b ∷ xs) (ne, f) (fa, d) z (x, l) = (
  rw
      (
        update_ne next n none a ne,
        update_ne pending last (some n) a (λ e. tail_apart next pending last b a xs l fa (sym e)),
      )
      x,
  IsLinked-exchange next pending n last b xs f d z l,
)

IsLinked-publish :
    (next pending : ℕ → Option ℕ) (p n last a : ℕ) (xs : List ℕ)
    → IsDistinct (a ∷ xs)
    → pending p ≡ some n
    → IsLinked next pending last a xs
    → IsLinked (update next p (some n)) (update pending p none) last a xs
IsLinked-publish next pending p n last a [] d h (x, y, e) =
    IsLinked-outside next pending p (some n) none last a []
      ((λ k. cc (sym h ∙ ap pending k ∙ y)), tt) (x, y, e)
IsLinked-publish next pending p n last a (b ∷ xs) (f, d) h (x, l) = elim (ℕ_discrete p a) [
  | yes k ↦ (
    ground arith,
    IsLinked-outside next pending p (some n) none last b xs
        (subst (λ c. NotIn c (b ∷ xs)) (sym k) f) l,
  )
  | no ne ↦ (
    rw (update_ne next p (some n) a ne, update_ne pending p none a ne) x,
    IsLinked-publish next pending p n last b xs d h l,
  )
]

pub exchange-Holds :
    (n : ℕ) (q : MpscQueue) (pending : ℕ → Option ℕ) (xs : List ℕ)
    → NotIn n (q.head ∷ xs)
    → Holds q pending xs
    → Holds (exchange n q).0 (update pending (exchange n q).1 (some n)) (xs ++ (n ∷ []))
unfolding exchange
exchange-Holds n q pending xs f h = record {
  linked =
      IsLinked-exchange q.next pending n q.tail q.head xs f h.distinct (h.outside n f) h.linked;
  distinct = snoc-IsDistinct (q.head ∷ xs) n h.distinct f;
  outside = λ a k. apart a k;
}
  where
    apart : (a : ℕ) → NotIn a (q.head ∷ (xs ++ (n ∷ []))) → update pending q.tail (some n) a ≡ none
    apart a (ne, k) =
        let f : NotIn a (q.head ∷ xs) = (ne, append-NotIn_left a xs (n ∷ []) k) in
        update_ne pending q.tail (some n) a
          (λ e. tail_apart q.next pending q.tail q.head a xs h.linked f (sym e))
        ∙ h.outside a f

pub publish-Holds :
    (prev n : ℕ) (q : MpscQueue) (pending : ℕ → Option ℕ) (xs : List ℕ)
    → pending prev ≡ some n
    → Holds q pending xs
    → Holds (publish prev n q) (update pending prev none) xs
unfolding publish
publish-Holds prev n q pending xs k h = record {
  linked = IsLinked-publish q.next pending prev n q.tail q.head xs h.distinct k h.linked;
  distinct = h.distinct;
  outside = λ a f. ground (arith, h.outside a f);
}

-- A whole push, with no other under way.
pub push-Holds :
    (n : ℕ) (q : MpscQueue) (xs : List ℕ)
    → NotIn n (q.head ∷ xs)
    → Holds q (λ a. none) xs
    → Holds (push n q) (λ a. none) (xs ++ (n ∷ []))
unfolding push
push-Holds n q xs f h =
    subst (λ (r : ℕ → Option ℕ). Holds (push n q) r (xs ++ (n ∷ []))) (fun_ext (λ a. ground arith))
      (publish-Holds (exchange n q).1 n (exchange n q).0
        (update (λ a. none) (exchange n q).1 (some n)) (xs ++ (n ∷ []))
        (update_self (λ (a : ℕ). none) (exchange n q).1 (some n))
        (exchange-Holds n q (λ a. none) xs f h))

pub push-head : (n : ℕ) (q : MpscQueue) → (push n q).head ≡ q.head
unfolding push
push-head n q = refl

-- What a pop of a queue that holds `xs` comes to.
pub data Taken (q : MpscQueue) (pending : ℕ → Option ℕ) : List ℕ → Type 0 where
  took_none : pop q ≡ nothing → empty q ≡ true → Taken q pending []
  took :
      (n : ℕ) (xs : List ℕ) (r : MpscQueue)
      → pop q ≡ popped n r
      → empty q ≡ false
      → r.head ≡ n
      → Holds r pending xs
      → Taken q pending (n ∷ xs)
  must_wait :
      (n : ℕ) (xs : List ℕ) (r : MpscQueue)
      → pop q ≡ unpublished
      → empty q ≡ false
      → pending q.head ≡ some n
      → pop (publish q.head n q) ≡ popped n r
      → Taken q pending (n ∷ xs)

-- While pushes are under way, a pop of a queue that holds nothing gives null; else it gives the
-- oldest node and the queue holds the others, or, exactly when the producer of the oldest node has
-- still to write its link, it waits for that producer and gives the node once the link is written.
pub pop_lem :
    (q : MpscQueue) (pending : ℕ → Option ℕ) (xs : List ℕ) → Holds q pending xs → Taken q pending xs
unfolding pop empty publish
pop_lem q pending [] h = took_none (ground (arith, h.linked)) (ground (arith, h.linked))
pop_lem q pending (n ∷ xs) h = elim h.linked.0 [
  | inl (x, y) ↦
      took n xs (record q { head = n }) (rw (x, pop)) (rw (x, empty)) refl
        (record {
          linked = h.linked.1;
          distinct = h.distinct.1;
          outside = λ a f. elim (ℕ_discrete a q.head) [
            | yes e ↦ ap pending e ∙ y
            | no ne ↦ h.outside a (ne, f)
          ];
        })
  | inr (x, y) ↦
      let apart = tail_apart q.next pending q.tail n q.head xs h.linked.1 h.distinct.0 in
      must_wait n xs (record (publish q.head n q) { head = n }) (ground (arith, apart))
        (ground (arith, apart)) y (ground arith)
]
