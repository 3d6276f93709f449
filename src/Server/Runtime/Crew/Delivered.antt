-- ===== src/Server/Runtime/Crew/Delivered.antt =====
-- Server::processEvent of app/include/server/server.h by many workers: what reaches the distributor, and
-- what is counted as an error.
use my_server.Server.Runtime.Submit.{try_submit_lem}
use my_server.Server.Runtime.Crew.Account.{tally-append, all_processed, tally}
use my_server.Server.Metrics.{inflight_dec, inflight_inc, u64}
use my_server.Server.Runtime.Crew.{
  finishes, advances, takes, here, next, if_accepted, submits, Step, Reach, Crew, distributing,
  parsing, executing, finishing, decoding, parsed, decoded, executed, advance, Stage,
}
use my_server.Common.{
  inr, sym, ◌∙◌, subst, inl, Option-cases, ap, ◌++◌, Option, none, some, Bool, false, not, ℕ, ◌+◌,
  ◌%◌, ◌≡◌, refl, arith, List, [], ◌∷◌, bit,
}
use my_server.Server.Runtime.{try_submit, try_pop_one, Command, String, Result, Server, decode_from}
use my_server.Server.Parts.{IsFifo, ServerParts}

module _ (p : ServerParts) (sent : p.World → ℕ) where
  abbrev AllKeep : List (p.Event → p.World → p.World × Option String) → Type 0
  AllKeep [] = Unit {0}
  AllKeep (adapter ∷ rest) =
      ((e : p.Event) (w : p.World) → sent (adapter e w).0 ≡ sent w) × AllKeep rest

  -- `sent` counts the calls of the distributor, and the other parts leave it alone.
  pub record IsMeter : Type 0 where
    pub delivers : (res : Result) (w : p.World) → sent (p.distribute res w) ≡ sent w + 1
    pub adapts : AllKeep p.adapters
    pub parses : (input : String) (w : p.World) → sent (p.parse input w).0 ≡ sent w
    pub executes : (cmd : Command) (w : p.World) → sent (p.execute cmd w).0 ≡ sent w

  sent-decode_from :
      (adapters : List (p.Event → p.World → p.World × Option String)) (e : p.Event) (w : p.World)
      → AllKeep adapters
      → sent (decode_from p adapters e w).0 ≡ sent w
  unfolding decode_from
  sent-decode_from [] e w k = refl
  sent-decode_from (adapter ∷ rest) e w (k, ks) =
      ground (arith, k e w, sent-decode_from rest e (adapter e w).0 ks)

  -- Whether an event has ended, well or not.
  abbrev succeeded : Stage p → Bool
  succeeded (finishing e ok) = ok
  succeeded other = false

  abbrev failing : Stage p → Bool
  failing (finishing e ok) = not ok
  failing other = false

  -- A call delivers exactly when it brings its event to a good end, and counts an error exactly when
  -- it brings it to a bad one.
  record IsDelivery (h : Stage p) (s : Server p) (r : Server p × Stage p) : Type 0 where
    delivered : sent r.0.world + bit (succeeded h) ≡ sent s.world + bit (succeeded r.1)
    errors :
        (r.0.metrics.error + bit (failing h)) % u64 ≡ (s.metrics.error + bit (failing r.1)) % u64

  module _ (meter : IsMeter) where
    decoded-IsDelivery :
        (e : p.Event) (x : p.World × Option String) (s : Server p)
        → sent x.0 ≡ sent s.world
        → IsDelivery (decoding e) s (decoded p e x s)
    unfolding decoded
    decoded-IsDelivery e (w, none) s k = ground (arith, k)
    decoded-IsDelivery e (w, some input) s k = ground (arith, k)

    parsed-IsDelivery :
        (e : p.Event) (input : String) (x : p.World × Option Command) (s : Server p)
        → sent x.0 ≡ sent s.world
        → IsDelivery (parsing e input) s (parsed p e x s)
    unfolding parsed
    parsed-IsDelivery e input (w, none) s k = ground (arith, k)
    parsed-IsDelivery e input (w, some cmd) s k = ground (arith, k)

    executed-IsDelivery :
        (e : p.Event) (cmd : Command) (x : p.World × Option Result) (s : Server p)
        → sent x.0 ≡ sent s.world
        → IsDelivery (executing e cmd) s (executed p e x s)
    unfolding executed
    executed-IsDelivery e cmd (w, none) s k = ground (arith, k)
    executed-IsDelivery e cmd (w, some res) s k = ground (arith, k)

    advance-IsDelivery : (h : Stage p) (s : Server p) → IsDelivery h s (advance p h s)
    unfolding advance
    advance-IsDelivery (decoding e) s =
        decoded-IsDelivery e (decode_from p p.adapters e s.world) s
          (sent-decode_from p.adapters e s.world meter.adapts)
    advance-IsDelivery (parsing e input) s =
        parsed-IsDelivery e input (p.parse input s.world) s (meter.parses input s.world)
    advance-IsDelivery (executing e cmd) s =
        executed-IsDelivery e cmd (p.execute cmd s.world) s (meter.executes cmd s.world)
    advance-IsDelivery (distributing e res) s = ground (arith, meter.delivers res s.world)
    advance-IsDelivery (finishing e ok) s = record { delivered = refl; errors = refl }

  -- What was sent and counted since the server `first`, up to `2 ^ 64` for the counter.
  record IsDelivered (first : Server p) (c : Crew p) : Type 0 where
    delivered :
        sent c.server.world
        ≡ sent first.world + tally succeeded c.hands + tally (λ (d : p.Event × Bool). d.1) c.done
    errors :
        c.server.metrics.error % u64
        ≡ (first.metrics.error
            + tally failing c.hands
            + tally (λ (d : p.Event × Bool). not d.1) c.done)
          % u64

  module _ (meter : IsMeter) (first : Server p) where
    submits-IsDelivered :
        (c : Crew p) (e : p.Event)
        → IsDelivered first c
        → IsDelivered first (record c {
          server = (try_submit p e c.server).0;
          accepted_events = if_accepted p (try_submit p e c.server).1 e c.accepted_events;
        })
    submits-IsDelivered c e v =
        let sub = (try_submit_lem p e c.server).1 in
        record {
          delivered = ap sent sub.same_world ∙ v.delivered;
          errors = ap (λ n. n % u64) sub.same_error ∙ v.errors;
        }

    takes-IsDelivered :
        (c : Crew p) (e : p.Event) (s : Server p)
        → IsDelivered first c
        → try_pop_one p c.server ≡ some (e, s)
        → IsDelivered first (record c {
          server = record s { metrics = inflight_inc s.metrics };
          hands = decoding e ∷ c.hands;
          taken = c.taken ++ (e ∷ []);
        })
    unfolding try_pop_one
    takes-IsDelivered c e s v h = elim (Option-cases (p.try_pop c.server.queue)) [
      | inl z ↦ absurd (ground arith)
      | inr ((d, q), f) ↦ record {
        delivered = ground (arith, v.delivered);
        errors = ground (arith, v.errors);
      }
    ]

    advances-IsDelivered :
        (c : Crew p) (before after : List (Stage p)) (h : Stage p)
        → IsDelivered first c
        → c.hands ≡ before ++ (h ∷ after)
        → IsDelivered first (record c {
          server = (advance p h c.server).0;
          hands = before ++ ((advance p h c.server).1 ∷ after);
        })
    advances-IsDelivered c before after h v e =
        let a = advance-IsDelivery meter h c.server in
        let k = (advance p h c.server).1 in
        record {
          delivered = omega (
            arith,
            v.delivered,
            a.delivered,
            ap (tally succeeded) e,
            tally-append succeeded before (h ∷ after),
            tally-append succeeded before (k ∷ after),
          );
          errors = omega (
            arith,
            v.errors,
            a.errors,
            ap (tally failing) e,
            tally-append failing before (h ∷ after),
            tally-append failing before (k ∷ after),
          );
        }

    finishes-IsDelivered :
        (c : Crew p) (before after : List (Stage p)) (e : p.Event) (ok : Bool)
        → IsDelivered first c
        → c.hands ≡ before ++ (finishing e ok ∷ after)
        → IsDelivered first (record c {
          server = record (c.server) { metrics = inflight_dec c.server.metrics };
          hands = before ++ after;
          done = c.done ++ ((e, ok) ∷ []);
        })
    finishes-IsDelivered c before after e ok v h = record {
      delivered = omega (
        arith,
        v.delivered,
        ap (tally succeeded) h,
        tally-append succeeded before (finishing e ok ∷ after),
        tally-append succeeded before after,
        tally-append (λ (d : p.Event × Bool). d.1) c.done ((e, ok) ∷ []),
      );
      errors = omega (
        arith,
        v.errors,
        ap (tally failing) h,
        tally-append failing before (finishing e ok ∷ after),
        tally-append failing before after,
        tally-append (λ (d : p.Event × Bool). not d.1) c.done ((e, ok) ∷ []),
      );
    }

    Step-IsDelivered : (c d : Crew p) → Step p c d → IsDelivered first c → IsDelivered first d
    Step-IsDelivered c d (submits e x) v =
        subst (IsDelivered first) (sym x) (submits-IsDelivered c e v)
    Step-IsDelivered c d (takes e s h x) v =
        subst (IsDelivered first) (sym x) (takes-IsDelivered c e s v h)
    Step-IsDelivered c d (advances b a h e x) v =
        subst (IsDelivered first) (sym x) (advances-IsDelivered c b a h v e)
    Step-IsDelivered c d (finishes b a e ok h x) v =
        subst (IsDelivered first) (sym x) (finishes-IsDelivered c b a e ok v h)

    Reach-IsDelivered : {c : Crew p} → Reach p first c → IsDelivered first c
    Reach-IsDelivered here = record { delivered = omega arith; errors = omega arith }
    Reach-IsDelivered (next {c = c} {d = d} r m) = Step-IsDelivered c d m (Reach-IsDelivered r)

    -- With a first-in first-out queue, and `sent` a count of the calls of the distributor that the other
    -- parts leave alone: however submissions and the calls of any number of workers interleave, from a
    -- server on with an empty queue and none in flight, once no worker is busy and the queue is empty,
    -- the finished events are the accepted ones, each as often (as many pass any test); the distributor
    -- was called once for each that ended well, and the errors counted, modulo 2 ^ 64, are the others.
    pub all_delivered :
        (contents : p.Queue → List p.Event) (fifo : IsFifo p contents) (c : Crew p)
        → contents first.queue ≡ []
        → first.metrics.inflight ≡ 0
        → Reach p first c
        → c.hands ≡ []
        → contents c.server.queue ≡ []
        → ((f : p.Event → Bool) → tally f c.accepted_events ≡ tally (λ d. f d.0) c.done)
          × (sent c.server.world ≡ sent first.world + tally (λ (d : p.Event × Bool). d.1) c.done)
          × (c.server.metrics.error % u64
              ≡ (first.metrics.error + tally (λ (d : p.Event × Bool). not d.1) c.done) % u64)
    all_delivered contents fifo c e z r h q =
        let v = Reach-IsDelivered r in
        (
          λ f. all_processed p contents fifo first c e z r h q f,
          omega (arith, v.delivered, ap (tally succeeded) h),
          omega (arith, v.errors, ap (tally failing) h),
        )
