-- ===== src/Logger/FreeList/Tests.antt =====
-- Runs of FreeList, and the theorems about it at concrete inputs.
use my_server.Common.{◌≡◌, refl, none, some, [], ◌∷◌, arith, true, false}
use my_server.Logger.FreeList.{FreeList, new, push, try_pop}
use my_server.Logger.FreeList.Order.{IsStack, new-IsStack, push-IsStack}
use my_server.Logger.FreeList.Race.{Race, Steps, hands_out_twice}

order_runs :
    (r : FreeList) × (s : FreeList) × (try_pop (push 5 (push 3 new)) ≡ some (5, r))
    × (try_pop r ≡ some (3, s))
    × (try_pop s ≡ none)
unfolding try_pop push new
order_runs = (_, _, refl, refl, refl)

abbrev pair : FreeList
pair = push 5 (push 3 new)

pair-IsStack : IsStack pair (5 ∷ 3 ∷ [])
pair-IsStack =
    push-IsStack 5 (push 3 new) (3 ∷ []) ((λ e. omega arith), tt)
      (push-IsStack 3 new [] tt new-IsStack)

abbrev calm : Race
calm = record { list = pair; slow = none; held = λ n. false }

hands_out_twice_example :
    (t : Race) × Steps calm t
    × (t.held 3 ≡ true)
    × ((r : FreeList) × (try_pop t.list ≡ some (3, r)))
hands_out_twice_example = hands_out_twice calm 5 3 [] pair-IsStack refl
