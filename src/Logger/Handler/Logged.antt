-- ===== src/Logger/Handler/Logged.antt =====
-- From `Handler::log` to the output of the engine.
use Prim.Native.Nat.{zero}
use my_server.Publisher.Types.{PublishToken}
use my_server.Publisher.Registry.{resolve, TokenRegistry}
use my_server.Common.{
  if◌then◌else◌, true, Option, append_nil, none, append_assoc, sym, ◌≢◌, zero, suc, refl, ◌∙◌,
  arith, ap, some, take, [], ◌≡◌, ◌++◌, ◌≤◌, ◌∷◌, List, Bytes, length, ℕ,
}
use my_server.Messages.{header_fields, request_fields, request, generic, Header, MsgTag}
use my_server.Messages.Layout.{payload_size, fields_end, pad_bytes, fields_size}
use my_server.Messages.Width.{InRange, print_header-length}
use my_server.Logger.Registry.{PayloadType, build, debug_impl}
use my_server.Logger.Registry.Builds.{build-payload_args, payload_args}
use my_server.Logger.Engine
use my_server.Publisher.Registry.Invariant.{IsValid}
use my_server.Logger.Engine.{EngineParts, LogEngine, stop_worker}
use my_server.Logger.Engine.Life.{Life, stop_submits_all, accepts}
use my_server.Logger.Submit.{cout_parts, cout, logged_to_cout, printed}
use my_server.Logger.Handler.{fits_record, Streams, Value, Payload, debug_print, PayloadQueue, log}

-- The header of a payload.
abbrev pub base : (tag : MsgTag) → PayloadType tag → Header
base generic p = p
base request p = p.header

-- Payloads whose header fields are in range.
abbrev pub AllInRange : List Payload → Type 0
AllInRange [] = Unit {0}
AllInRange ((tag, p) ∷ ps) = InRange (base tag p) × AllInRange ps

-- What payloads print, one after the other.
abbrev pub lines : List Payload → Bytes
lines [] = []
lines (p ∷ ps) = debug_print p ++ lines ps

debug_print-length :
    (tag : MsgTag) (p : PayloadType tag)
    → InRange (base tag p)
    → length (debug_print (tag, p)) ≤ 156
unfolding debug_print debug_impl
debug_print-length generic p r = print_header-length generic p r
debug_print-length request p r = print_header-length request p.header r

take-all : (n : ℕ) (xs : Bytes) → length xs ≤ n → take n xs ≡ xs
take-all zero [] h = refl
take-all zero (x ∷ xs) h = absurd (omega (arith, h))
take-all (suc n) [] h = refl
take-all (suc n) (x ∷ xs) h = ap (λ ys. x ∷ ys) (take-all n xs (omega (arith, h)))

lines-append : (ps qs : List Payload) → lines (ps ++ qs) ≡ lines ps ++ lines qs
lines-append [] qs = refl
lines-append (p ∷ ps) qs =
    ap (λ t. debug_print p ++ t) (lines-append ps qs)
    ∙ sym (append_assoc (debug_print p) (lines ps) (lines qs))

AllInRange-append :
    (ps : List Payload) (tag : MsgTag) (p : PayloadType tag)
    → AllInRange ps
    → InRange (base tag p)
    → AllInRange (ps ++ ((tag, p) ∷ []))
AllInRange-append [] tag p rs r = (r, tt)
AllInRange-append ((t, q) ∷ ps) tag p (s, rs) r = (s, AllInRange-append ps tag p rs r)

payloads_fit : (tag : MsgTag) → fits_record tag ≡ true
unfolding fits_record payload_size fields_end header_fields request_fields pad_bytes fields_size
payloads_fit generic = refl
payloads_fit request = refl

module _ (registry : TokenRegistry) (token : PublishToken) where
  abbrev pub parts : EngineParts
  parts = cout_parts debug_print registry token

  -- The engine as the queue of `Handler::log`; a payload that a record has no room for does not compile.
  unfoldable pub enqueue_payload : Payload → LogEngine parts → Option (LogEngine parts)
  enqueue_payload (tag, payload) s =
      if fits_record tag then Engine.enqueue parts (tag, payload) s else none

  abbrev pub engine_queue : PayloadQueue
  engine_queue = record { Engine = LogEngine parts; enqueue = enqueue_payload }

  printed-lines :
      (ps : List Payload) → AllInRange ps → printed debug_print registry token ps ≡ lines ps
  printed-lines [] r = refl
  printed-lines ((tag, p) ∷ ps) (r, rs) =
      rw (take-all 1024 (debug_print (tag, p)) (omega (arith, debug_print-length tag p r)))
        (ap (λ t. debug_print (tag, p) ++ t) (printed-lines ps rs))

  log-enqueue :
      (tag : MsgTag) (args : List Value) (p : PayloadType tag) (s : LogEngine parts)
      → build tag args ≡ some p
      → log engine_queue tag args s ≡ Engine.enqueue parts (tag, p) s
  unfolding log enqueue_payload
  log-enqueue tag args p s e = rw (e, log) (rw (payloads_fit tag) refl)

  -- An engine whose token resolves in a valid registry, after any enqueues and rounds of the worker of
  -- payloads whose header fields are in range, while a record is free. Logging arguments that are the
  -- values of a payload in range returns; after a stop, with some fuel, `std::cout` has what it had at
  -- first, the lines of the accepted payloads in order, and then the line of this one, none of them cut.
  pub log_reaches_cout :
      (c : ℕ) (first : Streams) (logged : List Payload) (s : LogEngine parts) (tag : MsgTag)
      (p : PayloadType tag)
      → IsValid registry
      → resolve registry token ≡ some c
      → Life parts first logged s
      → s.freelist.head ≢ none
      → AllInRange logged
      → InRange (base tag p)
      → (t : LogEngine parts) × (log engine_queue tag (payload_args tag p) s ≡ some t)
        × ((fuel : ℕ) × (u : LogEngine parts) × (stop_worker parts fuel t ≡ some u)
            × (u.world cout ≡ first cout ++ (lines logged ++ debug_print (tag, p))))
  log_reaches_cout c first logged s tag p ok e l free rs r =
      let (t, et) = (stop_submits_all parts first logged s l).0 (tag, p) in
      let (fuel, u, eu, w) =
        logged_to_cout debug_print registry token c first (logged ++ ((tag, p) ∷ [])) t ok e
          (accepts (tag, p) l free et) in
      (
        t,
        log-enqueue tag (payload_args tag p) p s (build-payload_args tag p) ∙ et,
        (
          fuel,
          u,
          eu,
          w
              ∙ ap (λ text. first cout ++ text)
                  (printed-lines (logged ++ ((tag, p) ∷ [])) (AllInRange-append logged tag p rs r)
                    ∙ lines-append logged ((tag, p) ∷ [])
                    ∙ ap (λ text. lines logged ++ text) (append_nil (debug_print (tag, p)))),
        ),
      )
