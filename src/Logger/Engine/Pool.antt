-- ===== src/Logger/Engine/Pool.antt =====
-- LogEngine::init_pool_and_queue: the records of a new pool on the free list.
use my_server.Common.{
  refl, length-append, append_assoc, ℕ, zero, suc, ◌+◌, ◌≤◌, ◌<◌, ◌≡◌, List, [], ◌∷◌, ◌++◌, NotIn,
  arith, length,
}
use my_server.Logger.FreeList.{FreeList}
use my_server.Logger.FreeList.Order.{IsStack, push-IsStack}
use my_server.Logger.Engine.{push_range}

-- Every number of the list is at least `lo` and below `hi`.
abbrev pub IsWithin : ℕ → ℕ → List ℕ → Type 0
IsWithin lo hi [] = Unit {0}
IsWithin lo hi (x ∷ xs) = (lo ≤ x) × (x < hi) × IsWithin lo hi xs

pub IsWithin-NotIn : (lo hi n : ℕ) (xs : List ℕ) → IsWithin lo hi xs → hi ≤ n → NotIn n xs
IsWithin-NotIn lo hi n [] w h = tt
IsWithin-NotIn lo hi n (x ∷ xs) (a, b, w) h = ((λ e. omega arith), IsWithin-NotIn lo hi n xs w h)

pub IsWithin-below : (lo hi n : ℕ) (xs : List ℕ) → IsWithin lo hi xs → n < lo → NotIn n xs
IsWithin-below lo hi n [] w h = tt
IsWithin-below lo hi n (x ∷ xs) (a, b, w) h = ((λ e. omega arith), IsWithin-below lo hi n xs w h)

pub IsWithin-weaken :
    (lo hi hi' : ℕ) (xs : List ℕ) → hi ≤ hi' → IsWithin lo hi xs → IsWithin lo hi' xs
IsWithin-weaken lo hi hi' [] h w = tt
IsWithin-weaken lo hi hi' (x ∷ xs) h (a, b, w) = (a, omega arith, IsWithin-weaken lo hi hi' xs h w)

pub append-IsWithin :
    (lo hi : ℕ) (xs ys : List ℕ) → IsWithin lo hi xs → IsWithin lo hi ys → IsWithin lo hi (xs ++ ys)
append-IsWithin lo hi [] ys v w = w
append-IsWithin lo hi (x ∷ xs) ys (a, b, v) w = (a, b, append-IsWithin lo hi xs ys v w)

pub insert-IsWithin :
    (lo hi h : ℕ) (xs ys : List ℕ)
    → lo ≤ h
    → h < hi
    → IsWithin lo hi (xs ++ ys)
    → IsWithin lo hi (xs ++ (h ∷ ys))
insert-IsWithin lo hi h [] ys a b w = (a, b, w)
insert-IsWithin lo hi h (x ∷ xs) ys a b (c, d, w) = (c, d, insert-IsWithin lo hi h xs ys a b w)

pub IsWithin-lower :
    (lo lo' hi : ℕ) (xs : List ℕ) → lo' ≤ lo → IsWithin lo hi xs → IsWithin lo' hi xs
IsWithin-lower lo lo' hi [] h w = tt
IsWithin-lower lo lo' hi (x ∷ xs) h (a, b, w) = (omega arith, b, IsWithin-lower lo lo' hi xs h w)

-- Pushing `k` records from `a` on puts that many on top of the stack.
pub push_range-IsStack :
    (k a lo : ℕ) (l : FreeList) (xs : List ℕ)
    → IsStack l xs
    → lo ≤ a
    → IsWithin lo a xs
    → (ns : List ℕ) × IsStack (push_range k a l) (ns ++ xs)
      × IsWithin a (a + k) ns
      × (length ns ≡ k)
unfolding push_range
push_range-IsStack zero a lo l xs s h w = ([], s, tt, refl)
push_range-IsStack (suc k) a lo l xs s h w =
    let r =
      push_range-IsStack k (a + 1) lo _ (a ∷ xs)
        (push-IsStack a l xs (IsWithin-NotIn lo a a xs w (omega arith)) s) (omega arith)
        (h, omega arith, IsWithin-weaken lo a (a + 1) xs (omega arith) w) in
    (
      r.0 ++ (a ∷ []),
      rw (append_assoc r.0 (a ∷ []) xs) r.1,
      append-IsWithin a (a + suc k) r.0 (a ∷ [])
          (IsWithin-lower (a + 1) a (a + suc k) r.0 (omega arith)
            (IsWithin-weaken (a + 1) (a + 1 + k) (a + suc k) r.0 (omega arith) r.2))
          (omega arith, omega arith, tt),
      omega (arith, length-append r.0 (a ∷ []), r.3),
    )
