-- ===== src/Publisher/Registry/Refines/Sessions.antt =====
-- What the clients of TokenRegistry observe over any sequence of calls.
use my_server.Publisher.Registry.Book.Sound.{share_by_group}
use my_server.Common.{sym, ◌<◌, some, ℕ, arith, List, ◌≢◌, ◌≡◌, subst, refl}
use my_server.Common.Outcome.{done, threw}
use my_server.Common.Traces.{Trace, Trace-follows}
use my_server.Publisher.Registry.{
  max_groups, shared, PublishToken, no_free_channels, pool_overflow, already_free, invalid_token,
  resolve, new, TokenRegistry, Error, capacity_exceeded,
}
use my_server.Publisher.Registry.Invariant.{IsValid, new-IsValid}
use my_server.Publisher.Registry.Book.{
  Book, refused, answered, Promises, Response, empty_book, Call,
}
use my_server.Publisher.Registry.Refines.{to_option, view, perform}
use my_server.Publisher.Registry.Refines.Calls.{Keeps, Meets, perform-Meets}

-- A call on the registry, but for one that finds it out of tokens.
abbrev pub Observes : TokenRegistry → Call × Response → TokenRegistry → Type 0
Observes r (call, answered reply) q = perform call r ≡ done q reply
Observes r (call, refused error) q = (perform call r ≡ threw q error) × (error ≢ capacity_exceeded)

view-new : view new ≡ empty_book
unfolding new resolve
view-new = ground (arith)

Keeps-threw :
    (q : TokenRegistry) (error : Error)
    → error ≢ capacity_exceeded
    → Keeps (threw q error)
    → IsValid q
Keeps-threw q capacity_exceeded ne k = absurd (ne refl)
Keeps-threw q invalid_token ne k = k
Keeps-threw q already_free ne k = k
Keeps-threw q pool_overflow ne k = k
Keeps-threw q no_free_channels ne k = k

-- The book of a valid registry.
abbrev pub IsBookOf : TokenRegistry → Book → Type 0
IsBookOf r b = IsValid r × (view r ≡ b)

Observes-Promises :
    (r q : TokenRegistry) (e : Call × Response) (b : Book)
    → IsBookOf r b
    → Observes r e q
    → (b' : Book) × Promises b e b' × IsBookOf q b'
Observes-Promises r q (call, answered reply) b (ok, same) e =
    let m = subst (Meets r call) e (perform-Meets r call ok) in
    (view q, rw (← same) m.1, (m.0, refl))
Observes-Promises r q (call, refused error) b (ok, same) (e, ne) =
    let m = subst (Meets r call) e (perform-Meets r call ok) in
    (view q, rw (← same) (m.1, ne), (Keeps-threw q error ne m.0, refl))

-- Whatever sequence of calls and responses the clients of a new registry observe, until it runs out of
-- tokens, the book allows the same sequence from the empty book on, and ends as the book of the
-- registry, which is valid.
pub sessions_refine :
    {es : List (Call × Response)} (q : TokenRegistry)
    → Trace Observes new es q
    → IsValid q × Trace Promises empty_book es (view q)
sessions_refine {es} q tr =
    let t =
      Trace-follows Observes Promises IsBookOf Observes-Promises new q empty_book
        (new-IsValid, view-new) tr in
    (t.2.0, subst (Trace Promises empty_book es) (sym t.2.1) t.1)

-- In a registry that clients have used since it was new and that never ran out of tokens, two tokens
-- that resolve to one channel have it from a group: the channel is shared, one of the groups has it,
-- and no other group does.
pub session_isolates :
    {es : List (Call × Response)} (q : TokenRegistry) (s t : PublishToken) (c : ℕ)
    → Trace Observes new es q
    → s ≢ t
    → resolve q s ≡ some c
    → resolve q t ≡ some c
    → (q.channel_mode c ≡ shared)
      × ((g : ℕ) × (g < max_groups)
          × (to_option (q.group_to_channel g) ≡ some c)
          × ((h : ℕ) → h < max_groups → to_option (q.group_to_channel h) ≡ some c → h ≡ g))
session_isolates q s t c tr ne es et =
    share_by_group (view q) s t c (sessions_refine q tr).1 ne es et
