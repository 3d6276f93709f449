-- ===== src/Server/Startup/Calm.antt =====
-- Server when its starts are apart from its other calls.
use my_server.Common.{◌≢◌, refl, ℕ, ◌+◌, ◌<◌, ◌≡◌, ◌⊎◌, ◌%◌, true, false, arith}
use my_server.Server.Types.{failed, created, running, stopping, graceful}
use my_server.Server.Metrics.{u64}
use my_server.Server.Runtime.{is_startable}
use my_server.Server.Startup.{
  notify_all, notify_one, notify_nobody, go_on, give_up, fall_asleep, here, next, Run, Startup,
  Label, start, inner, in_loop, Step, begin, reset_stop, reset_depth, spawn, ask, look_over,
  look_on, set_stopping, request, join, enter, admit, turn_away, push, refuse, count, take, uncount,
  find_empty, leave, stay,
}

abbrev pub starting : Startup → ℕ
starting s = s.at_stop + s.at_depth + s.spawning

abbrev pub stopping_calls : Startup → ℕ
stopping_calls s = s.at_load + s.at_set + s.at_request + s.at_notify

abbrev pub submissions : Startup → ℕ
submissions s = s.entered + s.admitted + s.stored + s.counted

-- A start begins with an empty queue, while no other call is under way; the other calls begin while no
-- start is.
abbrev pub IsApart : Startup → Label → Type 0
IsApart s start = (stopping_calls s + submissions s + s.items ≡ 0) × (starting s ≡ 0)
IsApart s inner = Unit {0}
IsApart s other = starting s ≡ 0

-- The server as it is built.
abbrev pub built : Startup
built = record {
  state = created;
  stop_requested = false;
  mode = graceful;
  items = 0;
  queued_approx = 0;
  at_stop = 0;
  at_depth = 0;
  spawning = 0;
  at_load = 0;
  at_set = 0;
  at_request = 0;
  at_notify = 0;
  entered = 0;
  admitted = 0;
  stored = 0;
  counted = 0;
  searching = 0;
  popped = 0;
  empty_handed = 0;
  at_test = 0;
  at_sleep = 0;
  asleep = 0;
}

-- The depth counter and the submissions still to count make up, modulo 2 ^ 64, the queue and the
-- events taken and not counted; a server that stops has a stop that is requested, or about to be; a
-- start has the server for itself; a server that can start has no worker; no server has failed.
pub record IsCalm (s : Startup) : Type 0 where
  pub accounted : (s.queued_approx + s.stored) % u64 ≡ (s.items + s.popped) % u64
  pub heeded : s.state ≡ stopping → (0 < s.at_request) ⊎ (s.stop_requested ≡ true)
  pub alone :
      0 < starting s
      → (stopping_calls s + submissions s + s.items + s.popped ≡ 0) × (s.state ≡ running)
  pub idle : is_startable s.state ≡ true → in_loop s + starting s ≡ 0
  pub small : s.queued_approx < u64
  pub not_failed : s.state ≢ failed

module _ (capacity pool : ℕ) where
  pub Step-IsCalm :
      (s t : Startup) (l : Label) → IsApart s l → Step capacity pool s t l → IsCalm s → IsCalm t
  Step-IsCalm s t _ ok (begin h e) v = ground (arith, v.idle, v.accounted)
  Step-IsCalm s t _ ok (reset_stop k h e) v = ground (arith, v.alone, v.accounted)
  Step-IsCalm s t _ ok (reset_depth k h e) v = ground (arith, v.alone)
  Step-IsCalm s t _ ok (spawn k h e) v = ground (arith, v.alone, v.accounted, v.heeded)
  Step-IsCalm s t _ ok (ask m e) v = ground (arith, v.alone, v.accounted, v.heeded, v.idle)
  Step-IsCalm s t _ ok (look_over k h o e) v =
      ground (arith, v.alone, v.accounted, v.heeded, v.idle)
  Step-IsCalm s t _ ok (look_on k h o e) v = ground (arith, v.alone, v.accounted, v.heeded, v.idle)
  Step-IsCalm s t _ ok (set_stopping k h e) v = ground (arith, v.alone, v.accounted)
  Step-IsCalm s t _ ok (request k h e) v = ground (arith, v.alone, v.accounted, v.heeded, v.idle)
  Step-IsCalm s t _ ok (join h z e) v = ground (arith, v.alone, v.accounted)
  Step-IsCalm s t _ ok (enter h e) v = ground (arith, v.alone, v.accounted, v.heeded, v.idle)
  Step-IsCalm s t _ ok (admit k h c e) v = ground (arith, v.alone, v.accounted, v.heeded, v.idle)
  Step-IsCalm s t _ ok (turn_away k h c e) v =
      ground (arith, v.alone, v.accounted, v.heeded, v.idle)
  Step-IsCalm s t _ ok (push k h e) v = ground (arith, v.alone, v.accounted, v.heeded, v.idle)
  Step-IsCalm s t _ ok (refuse k h e) v = ground (arith, v.alone, v.accounted, v.heeded, v.idle)
  Step-IsCalm s t _ ok (count k h e) v = ground (arith, v.alone, v.accounted, v.heeded, v.idle)
  Step-IsCalm s t _ ok (take k j h i e) v = ground (arith, v.alone, v.accounted, v.heeded, v.idle)
  Step-IsCalm s t _ ok (uncount k h e) v = ground (arith, v.alone, v.accounted, v.heeded, v.idle)
  Step-IsCalm s t _ ok (find_empty k h i e) v =
      ground (arith, v.alone, v.accounted, v.heeded, v.idle)
  Step-IsCalm s t _ ok (leave k h x e) v = ground (arith, v.alone, v.accounted, v.heeded, v.idle)
  Step-IsCalm s t _ ok (stay k h x e) v = ground (arith, v.alone, v.accounted, v.heeded, v.idle)
  Step-IsCalm s t _ ok (notify_all k h e) v = ground (arith, v.alone, v.accounted, v.heeded, v.idle)
  Step-IsCalm s t _ ok (notify_one k j h i e) v =
      ground (arith, v.alone, v.accounted, v.heeded, v.idle)
  Step-IsCalm s t _ ok (notify_nobody k h i e) v =
      ground (arith, v.alone, v.accounted, v.heeded, v.idle)
  Step-IsCalm s t _ ok (go_on k h x e) v = ground (arith, v.alone, v.accounted, v.heeded, v.idle)
  Step-IsCalm s t _ ok (give_up k h x e) v = ground (arith, v.alone, v.accounted, v.heeded, v.idle)
  Step-IsCalm s t _ ok (fall_asleep k h e) v =
      ground (arith, v.alone, v.accounted, v.heeded, v.idle)

  -- When starts begin with an empty queue while no other call is under way, and no other call begins
  -- during one, every state that calls lead to from the server as built has these: the depth counter,
  -- which is below 2 ^ 64, and the submissions that have pushed and not counted make up, modulo 2 ^ 64,
  -- the queue and the events that workers have taken and not counted; a server in the state `stopping`
  -- has its stop requested or a shutdown about to request it; a start that is under way has the server
  -- for itself; a server that can start has no worker; and none is in the state `failed`.
  pub Run-IsCalm : (s : Startup) → Run capacity pool IsApart built s → IsCalm s
  Run-IsCalm s here = record {
    accounted = refl;
    heeded = λ e. cc e;
    alone = λ h. absurd (omega arith);
    idle = λ e. refl;
    small = omega arith;
    not_failed = λ e. cc e;
  }
  Run-IsCalm s (next {t = t} {l = l} r ok st) = Step-IsCalm t s l ok st (Run-IsCalm t r)
