-- ===== src/Publisher/FreeStack.antt =====
-- The free stacks of TokenRegistry, of channels and of tokens: an array and a count, against the
-- test that says which of the `cap` items are free.
use my_server.Common.{
  ℕ, suc, ◌+◌, ◌-◌, ◌≤◌, ◌<◌, ◌≡◌, sym, ap, ◌∙◌, ◌≢◌, Bool, true, false, arith, update, update_self,
  update_ne, count, count-congr, count-differ, count-le, count-suc, bit,
}

-- The first `n` cells hold the free items, each once.
pub record IsFreeStack (cap : ℕ) (free : ℕ → Bool) (items : ℕ → ℕ) (n : ℕ) : Type 0 where
  pub below : (i : ℕ) → i < n → items i < cap
  pub is_free : (i : ℕ) → i < n → free (items i) ≡ true
  pub distinct : (i j : ℕ) → i < j → j < n → items i ≢ items j
  pub full : count cap free ≡ n

module _ (cap : ℕ) (free : ℕ → Bool) (items : ℕ → ℕ) (n : ℕ) where
  pub IsFreeStack-le : IsFreeStack cap free items n → n ≤ cap
  IsFreeStack-le s = omega (arith, count-le cap free, s.full)

  -- Room is left as long as some item is in use.
  pub IsFreeStack-lt : (x : ℕ) → IsFreeStack cap free items n → x < cap → free x ≡ false → n < cap
  IsFreeStack-lt x s lt used =
      let filled = update free x true in
      omega (
        arith,
        count-differ cap x free filled (λ t ne. sym (update_ne free x true t (λ e. ne (sym e)))) lt,
        count-le cap filled,
        s.full,
        ap bit used,
        ap bit (update_self free x true),
      )

  pub IsFreeStack-congr :
      (q : ℕ → Bool)
      → ((t : ℕ) → t < cap → free t ≡ q t)
      → IsFreeStack cap free items n
      → IsFreeStack cap q items n
  IsFreeStack-congr q h s = record {
    below = s.below;
    is_free = λ i lt. sym (h (items i) (s.below i lt)) ∙ s.is_free i lt;
    distinct = s.distinct;
    full = sym (count-congr cap free q h) ∙ s.full;
  }

  -- `items[n++] = x`.
  pub IsFreeStack-push :
      (x : ℕ)
      → IsFreeStack cap free items n
      → x < cap
      → free x ≡ false
      → IsFreeStack cap (update free x true) (update items n x) (n + 1)
  IsFreeStack-push x s lt used = record {
    below = λ i h. ground (arith, s.below i);
    is_free = λ i h. ground (arith, s.is_free i);
    distinct = λ i j h k. ground (arith, s.distinct i j, s.is_free i);
    full = omega (
      arith,
      count-differ cap x free (update free x true)
          (λ t ne. sym (update_ne free x true t (λ e. ne (sym e)))) lt,
      s.full,
      ap bit used,
      ap bit (update_self free x true),
    );
  }

  -- `items[--n]`.
  pub IsFreeStack-pop :
      IsFreeStack cap free items n
      → 0 < n
      → IsFreeStack cap (update free (items (n - 1)) false) items (n - 1)
  IsFreeStack-pop s pos = record {
    below = λ i h. s.below i (omega arith);
    is_free = λ i h. ground (arith, s.is_free i, s.distinct i (n - 1));
    distinct = λ i j h k. s.distinct i j h (omega arith);
    full = omega (
      arith,
      count-differ cap (items (n - 1)) free (update free (items (n - 1)) false)
          (λ t ne. sym (update_ne free (items (n - 1)) false t (λ e. ne (sym e))))
          (s.below (n - 1) (omega arith)),
      s.full,
      ap bit (s.is_free (n - 1) (omega arith)),
      ap bit (update_self free (items (n - 1)) false),
    );
  }

  -- One more item, in use, does not change the stack.
  pub IsFreeStack-grow :
      IsFreeStack cap free items n → free cap ≡ false → IsFreeStack (suc cap) free items n
  IsFreeStack-grow s used = record {
    below = λ i h. omega (arith, s.below i h);
    is_free = s.is_free;
    distinct = s.distinct;
    full = omega (arith, count-suc cap free, ap bit used, s.full);
  }
