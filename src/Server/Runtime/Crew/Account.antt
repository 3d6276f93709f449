-- ===== src/Server/Runtime/Crew/Account.antt =====
-- Server with many busy workers: where every accepted event is.
use my_server.Server.Types.{error, invalid, rejected_stopped, rejected_full}
use my_server.Server.Runtime.Machine.Steps.{try_pop_one-some}
use my_server.Common.{
  append_nil, inr, inl, append_assoc, length-append, ◌≢◌, ap, subst, sym, ◌∙◌, some, arith, ℕ, ◌+◌,
  ◌%◌, ◌≡◌, refl, Bool, List, [], ◌∷◌, ◌++◌, bit, length,
}
use my_server.Server.Metrics.{inflight_inc, inflight_dec, u64}
use my_server.Server.Parts.{ServerParts, IsFifo}
use my_server.Server.Runtime.{accepted, SubmitStatus, try_pop_one, Server, try_submit}
use my_server.Server.Runtime.Submit.{try_submit_lem}
use my_server.Server.Runtime.Submission.{Outcomes}
use my_server.Server.Runtime.Crew.Advance.{event_of, advance-IsAdvance}
use my_server.Server.Runtime.Crew.{
  Stage, decoding, finishing, advance, Crew, Step, submits, takes, advances, finishes, Reach, here,
  next, if_accepted,
}

-- How many members pass a test.
abbrev pub tally : {A : Type 0} → (A → Bool) → List A → ℕ
tally f [] = 0
tally f (x ∷ xs) = bit (f x) + tally f xs

pub tally-append :
    {A : Type 0} (f : A → Bool) (xs ys : List A) → tally f (xs ++ ys) ≡ tally f xs + tally f ys
tally-append f [] ys = omega arith
tally-append f (x ∷ xs) ys = omega (arith, tally-append f xs ys)

module _ (p : ServerParts) where
  module _ (contents : p.Queue → List p.Event) (fifo : IsFifo p contents) where
    -- What was accepted is what workers took and then what waits, in order; every event that was taken
    -- is in one worker's hand or finished; and the number in flight is that of busy workers.
    pub record IsAccounted (c : Crew p) : Type 0 where
      pub in_order : c.accepted_events ≡ c.taken ++ contents c.server.queue
      pub conserved :
          (f : p.Event → Bool)
          → tally f c.taken ≡ tally (λ h. f (event_of p h)) c.hands + tally (λ d. f d.0) c.done
      pub inflight : c.server.metrics.inflight ≡ length c.hands % u64

    submits-IsAccounted :
        (c : Crew p) (e : p.Event)
        → IsAccounted c
        → IsAccounted (record c {
          server = (try_submit p e c.server).0;
          accepted_events = if_accepted p (try_submit p e c.server).1 e c.accepted_events;
        })
    submits-IsAccounted c e v =
        let (o, sub) = try_submit_lem p e c.server in
        record {
          in_order = stored o;
          conserved = v.conserved;
          inflight = sub.same_inflight ∙ v.inflight;
        }
      where
        refused :
            (x : SubmitStatus)
            → x ≢ accepted
            → if_accepted p x e c.accepted_events ≡ c.accepted_events
        refused accepted ne = absurd (ne refl)
        refused rejected_full ne = refl
        refused rejected_stopped ne = refl
        refused invalid ne = refl
        refused error ne = refl

        stored :
            Outcomes p e c.server (try_submit p e c.server)
            → if_accepted p (try_submit p e c.server).1 e c.accepted_events
              ≡ c.taken ++ contents (try_submit p e c.server).0.queue
        stored (inl (x, st)) =
            ap (λ y. if_accepted p y e c.accepted_events) x
            ∙ ap (λ r. r ++ (e ∷ [])) v.in_order
            ∙ append_assoc c.taken (contents c.server.queue) (e ∷ [])
            ∙ ap (λ r. c.taken ++ r)
                (sym (fifo.pushed c.server.queue (try_submit p e c.server).0.queue e st.pushed))
        stored (inr (ne, rf)) =
            refused (try_submit p e c.server).1 ne
            ∙ v.in_order
            ∙ ap (λ q. c.taken ++ contents q) (sym rf.same_queue)

    takes-IsAccounted :
        (c : Crew p) (e : p.Event) (s : Server p)
        → IsAccounted c
        → try_pop_one p c.server ≡ some (e, s)
        → IsAccounted (record c {
          server = record s { metrics = inflight_inc s.metrics };
          hands = decoding e ∷ c.hands;
          taken = c.taken ++ (e ∷ []);
        })
    takes-IsAccounted c e s v h =
        let (q, popped, same) = try_pop_one-some p contents fifo c.server e s h in
        record {
          in_order =
              v.in_order
              ∙ ap (λ r. c.taken ++ r) (fifo.popped c.server.queue q e popped)
              ∙ sym (append_assoc c.taken (e ∷ []) (contents q))
              ∙ ap (λ (t : Server p). (c.taken ++ (e ∷ [])) ++ contents t.queue) (sym same);
          conserved = λ f. omega (arith, v.conserved f, tally-append f c.taken (e ∷ []));
          inflight = omega (arith, v.inflight, ap (λ (t : Server p). t.metrics.inflight) same);
        }

    advances-IsAccounted :
        (c : Crew p) (before after : List (Stage p)) (h : Stage p)
        → IsAccounted c
        → c.hands ≡ before ++ (h ∷ after)
        → IsAccounted (record c {
          server = (advance p h c.server).0;
          hands = before ++ ((advance p h c.server).1 ∷ after);
        })
    advances-IsAccounted c before after h v e =
        let a = advance-IsAdvance p h c.server in
        record {
          in_order = v.in_order ∙ ap (λ q. c.taken ++ contents q) (sym a.same_queue);
          conserved = λ f. omega (
            arith,
            v.conserved f,
            ap (tally (λ k. f (event_of p k))) e,
            tally-append (λ k. f (event_of p k)) before (h ∷ after),
            tally-append (λ k. f (event_of p k)) before ((advance p h c.server).1 ∷ after),
            ap (λ d. bit (f d)) a.same_event,
          );
          inflight = omega (
            arith,
            v.inflight,
            a.same_inflight,
            ap length e,
            length-append before (h ∷ after),
            length-append before ((advance p h c.server).1 ∷ after),
          );
        }

    finishes-IsAccounted :
        (c : Crew p) (before after : List (Stage p)) (e : p.Event) (ok : Bool)
        → IsAccounted c
        → c.hands ≡ before ++ (finishing e ok ∷ after)
        → IsAccounted (record c {
          server = record (c.server) { metrics = inflight_dec c.server.metrics };
          hands = before ++ after;
          done = c.done ++ ((e, ok) ∷ []);
        })
    finishes-IsAccounted c before after e ok v h = record {
      in_order = v.in_order;
      conserved = λ f. omega (
        arith,
        v.conserved f,
        ap (tally (λ k. f (event_of p k))) h,
        tally-append (λ k. f (event_of p k)) before (finishing e ok ∷ after),
        tally-append (λ k. f (event_of p k)) before after,
        tally-append (λ (d : p.Event × Bool). f d.0) c.done ((e, ok) ∷ []),
      );
      inflight = omega (
        arith,
        v.inflight,
        ap length h,
        length-append before (finishing e ok ∷ after),
        length-append before after,
      );
    }

    Step-IsAccounted : (c d : Crew p) → Step p c d → IsAccounted c → IsAccounted d
    Step-IsAccounted c d (submits e x) v = subst IsAccounted (sym x) (submits-IsAccounted c e v)
    Step-IsAccounted c d (takes e s h x) v = subst IsAccounted (sym x) (takes-IsAccounted c e s v h)
    Step-IsAccounted c d (advances b a h e x) v =
        subst IsAccounted (sym x) (advances-IsAccounted c b a h v e)
    Step-IsAccounted c d (finishes b a e ok h x) v =
        subst IsAccounted (sym x) (finishes-IsAccounted c b a e ok v h)

    -- With a first-in first-out queue, however submissions and the calls of any number of workers
    -- interleave, from a server on with an empty queue and none in flight: workers take the accepted
    -- events in the order of their acceptance, and the queue holds the rest; the events
    -- that were taken are those in the workers' hands and the finished ones, each as often: as many pass
    -- any test; and the number in flight is, modulo 2 ^ 64, the number of busy workers.
    pub Reach-IsAccounted :
        (first : Server p)
        → contents first.queue ≡ []
        → first.metrics.inflight ≡ 0
        → {c : Crew p} → Reach p first c
        → IsAccounted c
    Reach-IsAccounted first e z here = record {
      in_order = sym e;
      conserved = λ f. omega arith;
      inflight = z;
    }
    Reach-IsAccounted first e z (next {c = c} {d = d} r m) =
        Step-IsAccounted c d m (Reach-IsAccounted first e z r)

    -- After any such interleaving: once no worker is busy and the queue is empty, the finished events are the accepted
    -- ones, each as often: as many pass any test.
    pub all_processed :
        (first : Server p) (c : Crew p)
        → contents first.queue ≡ []
        → first.metrics.inflight ≡ 0
        → Reach p first c
        → c.hands ≡ []
        → contents c.server.queue ≡ []
        → (f : p.Event → Bool) → tally f c.accepted_events ≡ tally (λ d. f d.0) c.done
    all_processed first c e z r h q f =
        let v = Reach-IsAccounted first e z r in
        omega (
          arith,
          v.conserved f,
          ap (tally (λ k. f (event_of p k))) h,
          ap (tally f) (v.in_order ∙ ap (λ x. c.taken ++ x) q ∙ append_nil c.taken),
        )
