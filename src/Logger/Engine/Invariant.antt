-- ===== src/Logger/Engine/Invariant.antt =====
-- LogEngine in one life, from its first start to its stop: where every record of the pool is, and
-- what has been written.
use my_server.Common.{
  suc, ℕ, ◌+◌, ◌%◌, ◌<◌, ◌≤◌, ◌≡◌, ◌⊎◌, refl, ap, ◌∙◌, Option, none, some, List, [], ◌∷◌, ◌++◌,
  NotIn, IsDistinct, length, update, update_ne, update_self,
}
use my_server.Server.Metrics.{u64}
use my_server.Logger.FreeList.Order.{IsStack}
use my_server.Logger.MpscQueue.{stub}
use my_server.Logger.MpscQueue.Fifo.{Holds}
use my_server.Logger.Engine.{EngineParts, LogEngine}
use my_server.Logger.Engine.Pool.{IsWithin}

module _ (p : EngineParts) where
  -- The records hold these envelopes.
  abbrev pub AreStored : (ℕ → Option p.Envelope) → List ℕ → List p.Envelope → Type 0
  AreStored storage [] [] = Unit {0}
  AreStored storage [] (e ∷ es) = ⊥
  AreStored storage (x ∷ xs) [] = ⊥
  AreStored storage (x ∷ xs) (e ∷ es) = (storage x ≡ some e) × AreStored storage xs es

  pub update-AreStored :
      (storage : ℕ → Option p.Envelope) (n : ℕ) (v : Option p.Envelope) (xs : List ℕ)
      (es : List p.Envelope)
      → NotIn n xs
      → AreStored storage xs es
      → AreStored (update storage n v) xs es
  update-AreStored storage n v [] [] f a = tt
  update-AreStored storage n v [] (e ∷ es) f a = a
  update-AreStored storage n v (x ∷ xs) [] f a = a
  update-AreStored storage n v (x ∷ xs) (e ∷ es) (ne, f) (k, a) =
      (update_ne storage n v x ne ∙ k, update-AreStored storage n v xs es f a)

  pub append-AreStored :
      (storage : ℕ → Option p.Envelope) (n : ℕ) (e : p.Envelope) (xs : List ℕ)
      (es : List p.Envelope)
      → NotIn n xs
      → AreStored storage xs es
      → AreStored (update storage n (some e)) (xs ++ (n ∷ [])) (es ++ (e ∷ []))
  append-AreStored storage n e [] [] f a = (update_self storage n (some e), tt)
  append-AreStored storage n e [] (d ∷ es) f a = absurd a
  append-AreStored storage n e (x ∷ xs) [] f a = absurd a
  append-AreStored storage n e (x ∷ xs) (d ∷ es) (ne, f) (k, a) =
      (update_ne storage n (some e) x ne ∙ k, append-AreStored storage n e xs es f a)

  pub length-AreStored :
      (storage : ℕ → Option p.Envelope) (xs : List ℕ) (es : List p.Envelope)
      → AreStored storage xs es
      → length es ≡ length xs
  length-AreStored storage [] [] a = refl
  length-AreStored storage [] (d ∷ es) a = absurd a
  length-AreStored storage (x ∷ xs) [] a = absurd a
  length-AreStored storage (x ∷ xs) (d ∷ es) (k, a) = ap suc (length-AreStored storage xs es a)

  -- The world after these envelopes.
  abbrev pub submit_all : List p.Envelope → p.World → p.World
  submit_all [] w = w
  submit_all (e ∷ es) w = submit_all es (p.submit e w)

  pub submit_all-append :
      (es : List p.Envelope) (e : p.Envelope) (w : p.World)
      → submit_all (es ++ (e ∷ [])) w ≡ p.submit e (submit_all es w)
  submit_all-append [] e w = refl
  submit_all-append (d ∷ es) e w = submit_all-append es e (p.submit d w)

  -- The worker keeps the record that it took last, which is the head of the queue; before the first
  -- one the head is the stub.
  abbrev pub IsKept : LogEngine p → Type 0
  IsKept s =
      ((s.queue.head ≡ stub) × (s.pending_recycle ≡ none))
      ⊎ ((s.pending_recycle ≡ some s.queue.head)
          × (s.pool_base ≤ s.queue.head)
          × (s.queue.head < s.pool_base + s.pool_size))

  abbrev pub kept : Option ℕ → ℕ
  kept none = 0
  kept (some a) = 1

  -- Each record is free, or waits in the queue with an envelope, or is kept by the worker. What was
  -- logged and not dropped is what was submitted and then what waits, in order.
  pub record IsValid (first : p.World) (logged : List p.Envelope) (s : LogEngine p) : Type 0 where
    pub free : List ℕ
    pub waiting : List ℕ
    pub submitted : List p.Envelope
    pub stored : List p.Envelope
    pub is_stack : IsStack s.freelist free
    pub holds : Holds s.queue (λ a. none) waiting
    pub apart : IsDistinct (s.queue.head ∷ (waiting ++ free))
    pub within : IsWithin s.pool_base (s.pool_base + s.pool_size) (waiting ++ free)
    pub is_kept : IsKept s
    pub positive : 0 < s.pool_base
    pub has_records : 0 < s.pool_size
    pub edge : s.allocated ≡ s.pool_base + s.pool_size
    pub texts : AreStored s.storage waiting stored
    pub in_order : logged ≡ submitted ++ stored
    pub same_world : s.world ≡ submit_all submitted first
    pub whole : length free + length waiting + kept s.pending_recycle ≡ s.pool_size
    pub enqueued : s.enqueued ≡ length logged % u64
    pub written : s.written ≡ length submitted % u64
