-- ===== src/Publisher/Sinks.antt =====
-- modules/publisher/include/publisher/runtime: sink_handles.hpp, sink_traits.hpp,
-- resource_store.hpp and publisher_runtime.hpp. A stream is a number, and what it has received is
-- its bytes; a pointer to a stream may be null.
mod Tests
use my_server.Common.{
  ℕ, Option, none, some, List, [], ◌∷◌, ◌++◌, ◌≡◌, ◌≢◌, refl, sym, ap, ◌∙◌, arith, update,
  update_self, update_ne, Bytes, if◌then◌else◌, ltb, lt→ltb, leb, Bool, true, false, subst,
}
use my_server.Publisher.Types.{SinkKind, terminal, file, socket, PublishToken, exclusive}
use my_server.Publisher.Registry.{TokenRegistry, resolve, max_channels}
use my_server.Publisher.Registry.Invariant.{IsConsistent, IsValid}
use my_server.Publisher.Registry.Isolation.{resolve_bounds, exclusive_alone}

-- `terminals[i].out`, `files[i].file` and `sockets[i].fakeFd`, which is `none` where it is negative.
pub record OutputResourceStore : Type 0 where
  pub terminals : ℕ → Option ℕ
  pub files : ℕ → Option ℕ
  pub sockets : ℕ → Option ℕ

abbrev pub Streams : Type 0
Streams = ℕ → Bytes

-- The handle of a sink on a channel.
unfoldable pub handle : SinkKind → OutputResourceStore → ℕ → Option ℕ
handle terminal store c = store.terminals c
handle file store c = store.files c
handle socket store c = store.sockets c

-- `SinkTraits::write`: `none` is the failed assert of a handle that is not open. A socket writes
-- nothing yet.
unfoldable pub write : SinkKind → Option ℕ → Bytes → Streams → Option Streams
write sink none text streams = none
write terminal (some i) text streams = some (update streams i (streams i ++ text))
write file (some i) text streams = some (update streams i (streams i ++ text))
write socket (some i) text streams = some streams

-- `PublisherRuntime::publish_view` from the index on, which must be one of the arrays'.
unfoldable pub write_channel :
    SinkKind → OutputResourceStore → Option ℕ → Bytes → Streams → Option Streams
unfolding handle write
write_channel sink store none text streams = none
write_channel sink store (some c) text streams =
    if ltb c max_channels then write sink (handle sink store c) text streams else none

unfoldable pub publish_view :
    SinkKind → TokenRegistry → OutputResourceStore → PublishToken → Bytes → Streams → Option Streams
publish_view sink registry store token text streams =
    write_channel sink store (resolve registry token) text streams

-- `publish` of an object with a `payload`.
unfoldable pub publish_object :
    {A : Type 0}
    → (A → Bytes)
    → SinkKind
    → TokenRegistry
    → OutputResourceStore
    → PublishToken
    → A
    → Streams
    → Option Streams
publish_object payload sink registry store token obj streams =
    publish_view sink registry store token (payload obj) streams

-- The stream that a publication on a channel goes to; a socket has none.
abbrev pub target : SinkKind → OutputResourceStore → ℕ → Option ℕ
target terminal store c = store.terminals c
target file store c = store.files c
target socket store c = none

-- What a stream has after a publication to `to`.
abbrev pub received : Option ℕ → Bytes → Streams → Streams
received none text streams = streams
received (some i) text streams = update streams i (streams i ++ text)

-- In a valid registry, publishing with a token that resolves to a channel, whose handle for the kind
-- of sink is open, does not fail: the bytes are appended to the stream of that handle, or for a socket
-- to none, and no other stream changes.
pub publish_view_lem :
    (sink : SinkKind) (registry : TokenRegistry) (store : OutputResourceStore)
    (token : PublishToken) (c i : ℕ) (text : Bytes) (streams : Streams) {extra : ℕ → ℕ}
    → IsConsistent extra registry
    → resolve registry token ≡ some c
    → handle sink store c ≡ some i
    → publish_view sink registry store token text streams
      ≡ some (received (target sink store c) text streams)
unfolding publish_view write_channel handle write
publish_view_lem terminal registry store token c i text streams ok e h =
    rw (e, write_channel, lt→ltb c 4 (resolve_bounds registry token c ok e).0) (rw h refl)
publish_view_lem file registry store token c i text streams ok e h =
    rw (e, write_channel, lt→ltb c 4 (resolve_bounds registry token c ok e).0) (rw h refl)
publish_view_lem socket registry store token c i text streams ok e h =
    rw (e, write_channel, lt→ltb c 4 (resolve_bounds registry token c ok e).0) (rw h refl)

-- In a valid registry, and a store whose channels have terminals of their own, a publication to a
-- terminal with any other token never reaches the terminal of a token whose channel is exclusive.
pub publish_isolated :
    (registry : TokenRegistry) (store : OutputResourceStore) (s t : PublishToken) (c d i j : ℕ)
    (text : Bytes) (streams : Streams) {extra : ℕ → ℕ}
    → IsConsistent extra registry
    → ((a b k : ℕ) → store.terminals a ≡ some k → store.terminals b ≡ some k → a ≡ b)
    → registry.channel_mode c ≡ exclusive
    → resolve registry t ≡ some c
    → resolve registry s ≡ some d
    → s ≢ t
    → store.terminals c ≡ some i
    → store.terminals d ≡ some j
    → (after : Streams) × (publish_view terminal registry store s text streams ≡ some after)
      × (after i ≡ streams i)
      × (after j ≡ streams j ++ text)
unfolding handle
publish_isolated registry store s t c d i j text streams ok own alone et es ne hi hj = (
  update streams j (streams j ++ text),
  publish_view_lem terminal registry store s d j text streams ok es hj ∙ rw hj refl,
  update_ne streams j (streams j ++ text) i (λ e.
      exclusive_alone registry t s c ok alone et (λ k. ne (sym k))
        (es ∙ ap some (own d c i (rw⁻¹ e hj) hi))),
  update_self streams j (streams j ++ text),
)
