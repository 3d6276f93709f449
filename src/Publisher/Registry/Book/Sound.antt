-- ===== src/Publisher/Registry/Book/Sound.antt =====
-- What follows from the promises of TokenRegistry alone, over any session.
use my_server.Publisher.Registry.Book.Users.{users-Binds, users-Releases}
use my_server.Common.{
  count-two, ◌⊎◌, subst, refl, count-none, List, inr, inl, Option-cases, ap, ◌∙◌, sym, ℕ_discrete,
  ℕ, ◌+◌, ◌<◌, ◌≤◌, ◌≡◌, ◌≢◌, none, some, arith, bit, ◌==◌,
}
use my_server.Common.Traces.{Trace}
use my_server.Publisher.Types.{ChannelMode, exclusive, shared, PublishToken, max_groups, to_index}
use my_server.Publisher.Registry.{
  Error, invalid_token, already_free, no_free_channels, capacity_exceeded, max_bindings,
}
use my_server.Publisher.Registry.Book.{
  Book, on, users, Binds, Acquires, Joins, Releases, Call, token, released, Refuses, Response,
  answered, refused, Promises, empty_book,
}

-- An exclusive channel has one user at most, the channel of a group is shared and in use, and every
-- shared channel in use is that of exactly one group.
pub record IsSound (b : Book) : Type 0 where
  pub bounded : (t : PublishToken) → b.channel_of t ≢ none → t < max_bindings
  pub solo : (c : ℕ) → b.mode_of c ≡ exclusive → users b c ≤ 1
  pub live :
      (g c : ℕ) → g < max_groups → b.group_of g ≡ some c → (0 < users b c) × (b.mode_of c ≡ shared)
  pub distinct :
      (g h c : ℕ)
      → g < max_groups
      → h < max_groups
      → b.group_of g ≡ some c
      → b.group_of h ≡ some c
      → g ≡ h
  pub grouped :
      (c : ℕ)
      → b.mode_of c ≡ shared
      → 0 < users b c
      → (g : ℕ) × (g < max_groups) × (b.group_of g ≡ some c)

-- A binding has a token below the bound.
Binds-bounded :
    (b b' : Book) (t : PublishToken) (c : ℕ) (m : ChannelMode)
    → Binds b b' t c m
    → IsSound b
    → (s : PublishToken) → b'.channel_of s ≢ none
    → s < max_bindings
Binds-bounded b b' t c m x v s ne = elim (ℕ_discrete s t) [
  | yes e ↦ rw e x.small
  | no other ↦ v.bounded s (λ h. ne (ground (arith, x.binds s)))
]

Acquires-IsSound :
    (b b' : Book) (t : PublishToken) (c : ℕ) → Acquires b b' t c → IsSound b → IsSound b'
Acquires-IsSound b b' t c x v = record {
  bounded = Binds-bounded b b' t c exclusive x.bound v;
  solo = λ d e. ground (arith, more d, x.bound.sets_mode d, v.solo d, x.was_free);
  live = λ g d lt e.
      ground (arith, more d, x.bound.sets_mode d, x.same_groups g lt, v.live g d lt, x.was_free);
  distinct = λ g h d gl hl e f.
      v.distinct g h d gl hl (sym (x.same_groups g gl) ∙ e) (sym (x.same_groups h hl) ∙ f);
  grouped = λ d e u.
      let old =
        v.grouped d (ground (arith, x.bound.sets_mode d))
          (ground (arith, more d, x.bound.sets_mode d)) in
      (old.0, old.1, x.same_groups old.0 old.1 ∙ old.2);
}
  where
    more : (d : ℕ) → users b' d ≡ users b d + bit (c == d)
    more d = users-Binds b b' t c d exclusive x.bound

Joins-IsSound :
    (b b' : Book) (g : ℕ) (t : PublishToken) (c : ℕ) → Joins b b' g t c → IsSound b → IsSound b'
Joins-IsSound b b' g t c x v = record {
  bounded = Binds-bounded b b' t c shared x.bound v;
  solo = λ d e. ground (arith, more d, x.bound.sets_mode d, v.solo d);
  live = λ h d lt e. ground (arith, more d, x.bound.sets_mode d, x.sets_group h lt, v.live h d lt);
  distinct = λ h k d hl kl e f. only h k d hl kl e f;
  grouped = λ d e u. group_of d e u;
}
  where
    more : (d : ℕ) → users b' d ≡ users b d + bit (c == d)
    more d = users-Binds b b' t c d shared x.bound

    -- Another group has another channel.
    other : (h : ℕ) → h < max_groups → g ≢ h → b.group_of h ≢ some c
    other h lt ne e = elim (Option-cases (b.group_of g)) [
      | inl closed ↦ omega (arith, x.opens closed, (v.live h c lt e).0)
      | inr (d, opened) ↦
          ne (v.distinct g h c x.in_range lt (opened ∙ ap some (sym (x.joins d opened))) e)
    ]

    only :
        (h k d : ℕ)
        → h < max_groups
        → k < max_groups
        → b'.group_of h ≡ some d
        → b'.group_of k ≡ some d
        → h ≡ k
    only h k d hl kl e f = ground (
      arith,
      x.sets_group h hl,
      x.sets_group k kl,
      other h hl,
      other k kl,
      v.distinct h k d hl kl,
    )

    group_of :
        (d : ℕ)
        → b'.mode_of d ≡ shared
        → 0 < users b' d
        → (h : ℕ) × (h < max_groups) × (b'.group_of h ≡ some d)
    group_of d e u = elim (ℕ_discrete c d) [
      | yes same ↦ (g, x.in_range, ground (arith, x.sets_group g x.in_range))
      | no ne ↦
          let old = v.grouped d (ground (arith, x.bound.sets_mode d)) (ground (arith, more d)) in
          (old.0, old.1, ground (arith, x.sets_group old.0 old.1, x.joins d, old.2))
    ]

Releases-IsSound :
    (b b' : Book) (t : PublishToken) (c : ℕ) → Releases b b' t c → IsSound b → IsSound b'
Releases-IsSound b b' t c x v = record {
  bounded = λ s ne. v.bounded s (λ h. ne (ground (arith, x.unbinds s)));
  solo = λ d e.
      omega (arith, less d, v.solo d (sym (ap (λ (k : ℕ → ChannelMode). k d) x.same_modes) ∙ e));
  live = λ h d lt e. ground (
    arith,
    less d,
    ap (λ (k : ℕ → ChannelMode). k d) x.same_modes,
    x.leaves_groups h lt,
    v.live h d lt,
  );
  distinct = λ h k d hl kl e f.
      ground (arith, x.leaves_groups h hl, x.leaves_groups k kl, v.distinct h k d hl kl);
  grouped = λ d e u.
      let old =
        v.grouped d (sym (ap (λ (k : ℕ → ChannelMode). k d) x.same_modes) ∙ e)
          (omega (arith, less d)) in
      (old.0, old.1, ground (arith, x.leaves_groups old.0 old.1, old.2, less d, less c));
}
  where
    less : (d : ℕ) → users b' d + bit (c == d) ≡ users b d
    less d = users-Releases b b' t c d (v.bounded t (λ h. cc (x.was_bound))) x

-- A refusal leaves the book alone.
Refuses-same :
    (b b' : Book) (call : Call) (error : Error)
    → error ≢ capacity_exceeded
    → Refuses b call b' error
    → b' ≡ b
Refuses-same b b' Call.acquire no_free_channels ne h = h.0
Refuses-same b b' (Call.acquire_group group) no_free_channels ne h = h.0
Refuses-same b b' (Call.release t) already_free ne h = h.0
Refuses-same b b' (Call.release t) invalid_token ne h = h.0
Refuses-same b b' call capacity_exceeded ne h = absurd (ne refl)
Refuses-same b b' call error ne h = absurd h

Promises-IsSound : (b b' : Book) (e : Call × Response) → IsSound b → Promises b e b' → IsSound b'
Promises-IsSound b b' (call, refused error) v (h, ne) =
    subst IsSound (sym (Refuses-same b b' call error ne h)) v
Promises-IsSound b b' (Call.acquire, answered (token t)) v (c, h) = Acquires-IsSound b b' t c h v
Promises-IsSound b b' (Call.acquire_group group, answered (token t)) v (c, h) =
    Joins-IsSound b b' (to_index group) t c h v
Promises-IsSound b b' (Call.release t, answered released) v (c, h) = Releases-IsSound b b' t c h v
Promises-IsSound b b' (Call.acquire, answered released) v h = absurd h
Promises-IsSound b b' (Call.acquire_group group, answered released) v h = absurd h
Promises-IsSound b b' (Call.release t, answered (token s)) v h = absurd h

empty-IsSound : IsSound empty_book
empty-IsSound = record {
  bounded = λ t ne. absurd (ne refl);
  solo = λ c e. omega (arith, nobody c);
  live = λ g c lt e. cc e;
  distinct = λ g h c gl hl e f. cc e;
  grouped = λ c e u. cc e;
}
  where
    nobody : (c : ℕ) → users empty_book c ≡ 0
    nobody c = count-none max_bindings

pub sessions-IsSound :
    {es : List (Call × Response)} (b b' : Book) → IsSound b → Trace Promises b es b' → IsSound b'
sessions-IsSound b b' v (Trace.here) = v
sessions-IsSound b b' v (Trace.later {t = u} e st r) =
    sessions-IsSound u b' (Promises-IsSound b u e v st) r

ChannelMode-cases : (m : ChannelMode) → (m ≡ exclusive) ⊎ (m ≡ shared)
ChannelMode-cases exclusive = inl refl
ChannelMode-cases shared = inr refl

-- In any book that a session from the empty book leads to, two tokens of one channel have it from a
-- group: the channel is shared, one of the groups has it, and no other group does.
pub share_by_group :
    {es : List (Call × Response)} (b : Book) (s t : PublishToken) (c : ℕ)
    → Trace Promises empty_book es b
    → s ≢ t
    → b.channel_of s ≡ some c
    → b.channel_of t ≡ some c
    → (b.mode_of c ≡ shared)
      × ((g : ℕ) × (g < max_groups)
          × (b.group_of g ≡ some c)
          × ((h : ℕ) → h < max_groups → b.group_of h ≡ some c → h ≡ g))
share_by_group b s t c tr ne es et = elim (ChannelMode-cases (b.mode_of c)) [
  | inl alone ↦ absurd (omega (arith, two, v.solo c alone))
  | inr common ↦
      let owner = v.grouped c common (omega (arith, two)) in
      (common, (owner.0, owner.1, owner.2, λ h hl e. v.distinct h owner.0 c hl owner.1 e owner.2))
]
  where
    v : IsSound b
    v = sessions-IsSound empty_book b empty-IsSound tr

    two : 2 ≤ users b c
    two =
        count-two max_bindings s t (λ r. on c (b.channel_of r)) (v.bounded s (λ h. cc (es)))
          (v.bounded t (λ h. cc (et))) ne (ground (arith, es)) (ground (arith, et))
