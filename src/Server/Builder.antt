-- ===== src/Server/Builder.antt =====
-- The class ServerBuilder of app/include/server/server.h. `assemble` makes the state of the parts
-- from the states that the builder is given one by one; the builder starts with their default
-- values.
use my_server.Common.{
  arith, refl, ap, ◌∙◌, ◌≡◌, ◌∙◌, ap, ◌≡◌, ◌||◌, Bool, true, false, ◌&&◌, Option, none, some, List,
  [], ◌∷◌, if◌then◌else◌,
}
use my_server.Server.Config.{ServerConfig, default_config}
use my_server.Server.Hooks.{ServerHookTable, noop_hooks}
use my_server.Server.Parts.{ServerParts}
use my_server.Server.Runtime.{Server, new_server}

pub record PartStates : Type 1 where
  pub parts : ServerParts
  pub open parts use *
  pub Parser : Type 0
  pub Executor : Type 0
  pub Distributor : Type 0
  pub Adapters : Type 0
  pub assemble : Parser → Executor → Distributor → Adapters → parts.World
  pub default_queue : parts.Queue
  pub default_parser : Parser
  pub default_executor : Executor
  pub default_distributor : Distributor
  pub default_adapters : Adapters

pub record ServerBuilder (p : PartStates) : Type 0 where
  pub config : ServerConfig
  pub hooks : ServerHookTable
  pub queue : p.parts.Queue
  pub parser : p.Parser
  pub executor : p.Executor
  pub distributor : p.Distributor
  pub adapters : p.Adapters
  pub has_config : Bool
  pub has_queue : Bool
  pub has_parser : Bool
  pub has_executor : Bool
  pub has_distributor : Bool
  pub has_adapters : Bool

module _ (p : PartStates) where
  unfoldable pub new_builder : ServerBuilder p
  new_builder = record {
    config = default_config;
    hooks = noop_hooks;
    queue = p.default_queue;
    parser = p.default_parser;
    executor = p.default_executor;
    distributor = p.default_distributor;
    adapters = p.default_adapters;
    has_config = false;
    has_queue = false;
    has_parser = false;
    has_executor = false;
    has_distributor = false;
    has_adapters = false;
  }

  -- One call of a `with…` method.
  pub data Setting : Type 0 where
    with_config : ServerConfig → Setting
    with_hooks : ServerHookTable → Setting
    with_queue : p.parts.Queue → Setting
    with_parser : p.Parser → Setting
    with_executor : p.Executor → Setting
    with_distributor : p.Distributor → Setting
    with_adapters : p.Adapters → Setting

  unfoldable pub apply : Setting → ServerBuilder p → ServerBuilder p
  apply (with_config x) b = record b { config = x; has_config = true }
  apply (with_hooks x) b = record b { hooks = x }
  apply (with_queue x) b = record b { queue = x; has_queue = true }
  apply (with_parser x) b = record b { parser = x; has_parser = true }
  apply (with_executor x) b = record b { executor = x; has_executor = true }
  apply (with_distributor x) b = record b { distributor = x; has_distributor = true }
  apply (with_adapters x) b = record b { adapters = x; has_adapters = true }

  unfoldable pub apply_all : List Setting → ServerBuilder p → ServerBuilder p
  unfolding apply
  apply_all [] b = b
  apply_all (x ∷ xs) b = apply_all xs (apply x b)

  unfoldable pub is_valid : ServerBuilder p → Bool
  is_valid b =
      b.has_config && b.has_queue && b.has_parser && b.has_executor && b.has_distributor
      && b.has_adapters

  -- `build` with `buildImpl`; `none` is the null pointer.
  unfoldable pub build : ServerBuilder p → Option (Server p.parts)
  unfolding is_valid
  build b =
      let world = p.assemble b.parser b.executor b.distributor b.adapters in
      if is_valid b then some (new_server p.parts b.config b.hooks b.queue world) else none

  -- What a call gives, for each part.
  abbrev pub config_of : Setting → Option ServerConfig
  config_of x = elim x [ with_config a ↦ some a | _ ↦ none ]

  abbrev pub hooks_of : Setting → Option ServerHookTable
  hooks_of x = elim x [ with_hooks a ↦ some a | _ ↦ none ]

  abbrev pub queue_of : Setting → Option p.parts.Queue
  queue_of x = elim x [ with_queue a ↦ some a | _ ↦ none ]

  abbrev pub parser_of : Setting → Option p.Parser
  parser_of x = elim x [ with_parser a ↦ some a | _ ↦ none ]

  abbrev pub executor_of : Setting → Option p.Executor
  executor_of x = elim x [ with_executor a ↦ some a | _ ↦ none ]

  abbrev pub distributor_of : Setting → Option p.Distributor
  distributor_of x = elim x [ with_distributor a ↦ some a | _ ↦ none ]

  abbrev pub adapters_of : Setting → Option p.Adapters
  adapters_of x = elim x [ with_adapters a ↦ some a | _ ↦ none ]

  -- The last value that a chain of calls gives, or `d` if it gives none.
  abbrev pub last_or : {A : Type 0} → (Setting → Option A) → A → List Setting → A
  last_or f d [] = d
  last_or f d (x ∷ xs) = last_or f (elim (f x) [ none ↦ d | some a ↦ a ]) xs

  -- Whether it gives one.
  abbrev pub gives : {A : Type 0} → (Setting → Option A) → List Setting → Bool
  gives f [] = false
  gives f (x ∷ xs) = (elim (f x) [ none ↦ false | some a ↦ true ]) || gives f xs

  -- The builder after a chain of calls, field by field.
  abbrev given : List Setting → ServerBuilder p → ServerBuilder p
  given xs b = record {
    config = last_or config_of b.config xs;
    hooks = last_or hooks_of b.hooks xs;
    queue = last_or queue_of b.queue xs;
    parser = last_or parser_of b.parser xs;
    executor = last_or executor_of b.executor xs;
    distributor = last_or distributor_of b.distributor xs;
    adapters = last_or adapters_of b.adapters xs;
    has_config = b.has_config || gives config_of xs;
    has_queue = b.has_queue || gives queue_of xs;
    has_parser = b.has_parser || gives parser_of xs;
    has_executor = b.has_executor || gives executor_of xs;
    has_distributor = b.has_distributor || gives distributor_of xs;
    has_adapters = b.has_adapters || gives adapters_of xs;
  }

  or_true : (b : Bool) → true ≡ b || true
  or_true true = refl
  or_true false = refl

  or_false : (b : Bool) → b || false ≡ b
  or_false true = refl
  or_false false = refl

  given-apply :
      (x : Setting) (xs : List Setting) (b : ServerBuilder p)
      → given xs (apply x b) ≡ given (x ∷ xs) b
  unfolding apply
  given-apply (with_config a) xs b =
      ap (λ v. record (given (with_config a ∷ xs) b) { has_config = v }) (or_true b.has_config)
  given-apply (with_hooks a) xs b = refl
  given-apply (with_queue a) xs b =
      ap (λ v. record (given (with_queue a ∷ xs) b) { has_queue = v }) (or_true b.has_queue)
  given-apply (with_parser a) xs b =
      ap (λ v. record (given (with_parser a ∷ xs) b) { has_parser = v }) (or_true b.has_parser)
  given-apply (with_executor a) xs b =
      ap (λ v. record (given (with_executor a ∷ xs) b) { has_executor = v })
        (or_true b.has_executor)
  given-apply (with_distributor a) xs b =
      ap (λ v. record (given (with_distributor a ∷ xs) b) { has_distributor = v })
        (or_true b.has_distributor)
  given-apply (with_adapters a) xs b =
      ap (λ v. record (given (with_adapters a ∷ xs) b) { has_adapters = v })
        (or_true b.has_adapters)

  apply_all_lem : (xs : List Setting) (b : ServerBuilder p) → apply_all xs b ≡ given xs b
  unfolding apply_all
  apply_all_lem [] b = ground (
    arith,
    or_false b.has_config,
    or_false b.has_queue,
    or_false b.has_parser,
    or_false b.has_executor,
    or_false b.has_distributor,
    or_false b.has_adapters,
  )
  apply_all_lem (x ∷ xs) b = apply_all_lem xs (apply x b) ∙ given-apply x xs b

  -- Whatever `with…` calls are chained on a new builder, in any order and with repetitions, `build`
  -- gives a new server exactly when all of the six required parts were given, and the server has for
  -- each part the value given last, with no-op hooks when none were given. Else it gives null.
  pub build_lem :
      (xs : List Setting)
      → build (apply_all xs new_builder) ≡ (
          if gives config_of xs
            && gives queue_of xs
            && gives parser_of xs
            && gives executor_of xs
            && gives distributor_of xs
            && gives adapters_of xs
          then some (
              new_server p.parts
                (last_or config_of default_config xs)
                (last_or hooks_of noop_hooks xs)
                (last_or queue_of p.default_queue xs)
                (p.assemble
                  (last_or parser_of p.default_parser xs)
                  (last_or executor_of p.default_executor xs)
                  (last_or distributor_of p.default_distributor xs)
                  (last_or adapters_of p.default_adapters xs)))
          else none)
  unfolding build new_builder
  build_lem xs = ap build (apply_all_lem xs new_builder)
