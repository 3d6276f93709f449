-- ===== src/Publisher/Handle/Crowd/Changes.antt =====
-- What a token that is taken, dropped or moved does to who owns the tokens (registration_handle.hpp).
use my_server.Common.{
  ◌∙◌, inr, inl, Option, ℕ, ◌≡◌, ◌≢◌, none, some, arith, ◌==◌, ◌&&◌, if◌then◌else◌, ℕ_discrete,
  Bool-cases,
}
use my_server.Publisher.Types.{PublishToken}
use my_server.Publisher.Registry.{resolve}
use my_server.Publisher.Registry.Leaks.{IsKept}
use my_server.Publisher.Handle.{Registries}
use my_server.Publisher.Handle.Crowd.{IsOwned}

-- Registry `i` has handed out token `t`.
pub record Taken (n : ℕ) (rs rs' : Registries) (i : ℕ) (t : PublishToken) : Type 0 where
  pub channel : ℕ
  pub registries : (j : ℕ) → IsKept n (rs' j)
  pub unused : resolve (rs i) t ≡ none
  pub resolves :
      (j : ℕ) (s : PublishToken)
      → resolve (rs' j) s ≡ (if (j == i) && (s == t) then some channel else resolve (rs j) s)

-- It has taken it back.
pub record Dropped (n : ℕ) (rs rs' : Registries) (i : ℕ) (t : PublishToken) : Type 0 where
  pub registries : (j : ℕ) → IsKept n (rs' j)
  pub resolves :
      (j : ℕ) (s : PublishToken)
      → resolve (rs' j) s ≡ (if (j == i) && (s == t) then none else resolve (rs j) s)

module _ (n : ℕ) (rs rs' : Registries) (held held' : ℕ → Option (ℕ × PublishToken)) (k i : ℕ)
    (t : PublishToken) (o : IsOwned n rs held) where
  pub Taken-IsOwned :
      Taken n rs rs' i t
      → held k ≡ none
      → ((l : ℕ) → held' l ≡ (if k == l then some (i, t) else held l))
      → IsOwned n rs' held'
  Taken-IsOwned x idle h = record {
    registries = x.registries;
    owns = λ l j s e. ground (arith, x.resolves j s, o.owns l j s, h l);
    unique = λ l m j s e f.
        ground (arith, h l, h m, o.unique l m j s, o.owns l j s, o.owns m j s, x.unused);
    owned = λ j s ne. elim (Bool-cases ((j == i) && (s == t))) [
      | inl same ↦ (k, ground (arith, h k))
      | inr other ↦
          let old = o.owned j s (λ z. ne (ground (arith, x.resolves j s))) in
          (old.0, ground (arith, h old.0, old.1))
    ];
  }

  -- The handle that had the token has none.
  pub Dropped-IsOwned :
      Dropped n rs rs' i t
      → held k ≡ some (i, t)
      → ((l : ℕ) → held' l ≡ (if k == l then none else held l))
      → IsOwned n rs' held'
  Dropped-IsOwned x had h = record {
    registries = x.registries;
    owns = λ l j s e. ground (arith, x.resolves j s, o.owns l j s, h l, o.unique k l i t);
    unique = λ l m j s e f. ground (arith, h l, h m, o.unique l m j s);
    owned = λ j s ne.
        let old = o.owned j s (λ z. ne (ground (arith, x.resolves j s))) in
        (old.0, ground (arith, h old.0, old.1, x.resolves j s));
  }

-- A handle's token goes to another handle, which had none.
pub moved-IsOwned :
    (n : ℕ) (rs : Registries) (held held' : ℕ → Option (ℕ × PublishToken)) (k l : ℕ)
    → IsOwned n rs held
    → k ≢ l
    → held k ≡ none
    → ((m : ℕ) → held' m ≡ (if l == m then none else if k == m then held l else held m))
    → IsOwned n rs held'
moved-IsOwned n rs held held' k l o ne idle h = record {
  registries = o.registries;
  owns = λ m j s e. ground (arith, o.owns m j s, o.owns l j s, h m);
  unique = λ m k' j s e f.
      ground (arith, h m, h k', o.unique m k' j s, o.unique l k' j s, o.unique m l j s);
  owned = λ j s ne'.
      let old = o.owned j s ne' in
      elim (ℕ_discrete old.0 l) [
        | yes same ↦ (k, ground (arith, h k, old.1, same))
        | no other ↦ (old.0, ground (arith, h old.0, old.1))
      ];
}

-- An operation that found no token left changes what is kept, and no token.
pub starved-IsOwned :
    (m n : ℕ) (rs rs' : Registries) (held : ℕ → Option (ℕ × PublishToken))
    → IsOwned m rs held
    → ((j : ℕ) → IsKept n (rs' j) × ((s : PublishToken) → resolve (rs' j) s ≡ resolve (rs j) s))
    → IsOwned n rs' held
starved-IsOwned m n rs rs' held o kept = record {
  registries = λ j. (kept j).0;
  owns = λ k j s e. rw ((kept j).1 s) (o.owns k j s e);
  unique = o.unique;
  owned = λ j s ne. o.owned j s (λ z. ne ((kept j).1 s ∙ z));
}
