-- ===== src/Logger/Submit.antt =====
-- LogEngine::submit_impl and the output resources of the engine (log_engine.hpp and log_engine.cpp in
-- modules/logger), with FixedStringBuf of modules/logger/include/logger/core/stream_adapter.hpp. What
-- `debug_print` of an envelope writes is a parameter.
mod Tests
use my_server.Common.{
  ℕ, zero, suc, ◌+◌, ◌<◌, Option, none, some, List, [], ◌∷◌, ◌++◌, ◌≡◌, refl, sym, ap, ◌∙◌, arith,
  update, update_self, Bytes, if◌then◌else◌, ltb, take, length, length-append, append_assoc,
  append_nil,
}
use my_server.Publisher.Types.{terminal, PublishToken}
use my_server.Publisher.Registry.{TokenRegistry, resolve}
use my_server.Publisher.Registry.Invariant.{IsValid}
use my_server.Publisher.Sinks.{
  OutputResourceStore, Streams, publish_view, publish_view_lem, received, handle,
}
use my_server.Logger.Engine.{EngineParts, LogEngine, stop_worker}
use my_server.Logger.Engine.Invariant.{submit_all}
use my_server.Logger.Engine.Life.{Life, stop_submits_all}

-- FixedStringBuf<N>: the characters between `pbase` and `pptr`. A character that finds the buffer full
-- goes to `overflow`, which drops it and reports success.
abbrev pub FixedStringBuf : Type 0
FixedStringBuf = Bytes

abbrev pub reset_buf : FixedStringBuf
reset_buf = []

unfoldable pub put_char : ℕ → ℕ → FixedStringBuf → FixedStringBuf
put_char n c buf = if ltb (length buf) n then buf ++ (c ∷ []) else buf

unfoldable pub put_all : ℕ → Bytes → FixedStringBuf → FixedStringBuf
unfolding put_char
put_all n [] buf = buf
put_all n (c ∷ cs) buf = put_all n cs (put_char n c buf)

-- `std::cout`.
abbrev pub cout : ℕ
cout = 0

-- `store()`.
unfoldable pub engine_store : OutputResourceStore
engine_store = record { terminals = λ c. some cout; files = λ c. none; sockets = λ c. none }

module _ {Envelope : Type 0} (debug_print : Envelope → Bytes) where
  unfoldable pub submit_impl : TokenRegistry → PublishToken → Envelope → Streams → Option Streams
  submit_impl registry token env streams =
      publish_view terminal registry engine_store token (put_all 1024 (debug_print env) reset_buf)
        streams

put_char-full : (n c : ℕ) (buf : Bytes) → length buf ≡ n → put_char n c buf ≡ buf
unfolding put_char
put_char-full n c buf h = ground arith

put_char-room : (n c : ℕ) (buf : Bytes) → length buf < n → put_char n c buf ≡ buf ++ (c ∷ [])
unfolding put_char
put_char-room n c buf h = ground arith

-- A buffer with room for `k` more characters takes the first `k`.
put_all-take : (n k : ℕ) (cs buf : Bytes) → length buf + k ≡ n → put_all n cs buf ≡ buf ++ take k cs
unfolding put_all
put_all-take n zero [] buf h = sym (append_nil buf)
put_all-take n (suc k) [] buf h = sym (append_nil buf)
put_all-take n zero (c ∷ cs) buf h =
    ap (put_all n cs) (put_char-full n c buf (omega (arith, h))) ∙ put_all-take n zero cs buf h
put_all-take n (suc k) (c ∷ cs) buf h =
    ap (put_all n cs) (put_char-room n c buf (omega (arith, h)))
    ∙ put_all-take n k cs (buf ++ (c ∷ [])) (omega (arith, h, length-append buf (c ∷ [])))
    ∙ append_assoc buf (c ∷ []) (take k cs)

module _ {Envelope : Type 0} (debug_print : Envelope → Bytes) (registry : TokenRegistry)
    (token : PublishToken) where
  -- With a valid registry in which the engine's token resolves, submitting an envelope does not fail:
  -- it appends the first 1024 characters of the envelope's text to `std::cout` and changes no other
  -- stream.
  pub submit_impl_lem :
      (c : ℕ) (env : Envelope) (streams : Streams)
      → IsValid registry
      → resolve registry token ≡ some c
      → submit_impl debug_print registry token env streams
        ≡ some (update streams cout (streams cout ++ take 1024 (debug_print env)))
  unfolding submit_impl engine_store handle
  submit_impl_lem c env streams ok e =
      publish_view_lem terminal registry engine_store token c cout
        (put_all 1024 (debug_print env) []) streams ok e refl
      ∙ ap (λ text. some (update streams cout (streams cout ++ text)))
          (put_all-take 1024 1024 (debug_print env) [] refl)

  -- The engine with this submission; where it fails, the streams stay.
  abbrev pub cout_parts : EngineParts
  cout_parts = record {
    Envelope = Envelope;
    World = Streams;
    submit = λ env streams. elim (submit_impl debug_print registry token env streams) [
      | none ↦ streams
      | some t ↦ t
    ];
  }

  -- What envelopes print, each cut to the buffer.
  abbrev pub printed : List Envelope → Bytes
  printed [] = []
  printed (e ∷ es) = take 1024 (debug_print e) ++ printed es

  cout_parts-submit :
      (c : ℕ) (env : Envelope) (streams : Streams)
      → IsValid registry
      → resolve registry token ≡ some c
      → cout_parts.submit env streams
        ≡ update streams cout (streams cout ++ take 1024 (debug_print env))
  cout_parts-submit c env streams ok e =
      ap (λ (o : Option Streams). elim o [ none ↦ streams | some t ↦ t ])
        (submit_impl_lem c env streams ok e)

  submit_all-printed :
      (c : ℕ) (es : List Envelope) (streams : Streams)
      → IsValid registry
      → resolve registry token ≡ some c
      → submit_all cout_parts es streams cout ≡ streams cout ++ printed es
  submit_all-printed c [] streams ok e = sym (append_nil (streams cout))
  submit_all-printed c (d ∷ es) streams ok e =
      submit_all-printed c es (cout_parts.submit d streams) ok e
      ∙ ap (λ (s : Streams). s cout ++ printed es) (cout_parts-submit c d streams ok e)
      ∙ ap (λ x. x ++ printed es)
          (update_self streams cout (streams cout ++ take 1024 (debug_print d)))
      ∙ append_assoc (streams cout) (take 1024 (debug_print d)) (printed es)

  -- The logger from enqueue to output: after any enqueues and rounds of the worker from the first
  -- start on, a stop, with some fuel, leaves on `std::cout` what was there before and then the texts of
  -- the accepted envelopes, in order, each cut to 1024 characters, if the engine's token resolves in a
  -- valid registry.
  pub logged_to_cout :
      (c : ℕ) (first : Streams) (logged : List Envelope) (s : LogEngine cout_parts)
      → IsValid registry
      → resolve registry token ≡ some c
      → Life cout_parts first logged s
      → (fuel : ℕ) × (t : LogEngine cout_parts) × (stop_worker cout_parts fuel s ≡ some t)
        × (t.world cout ≡ first cout ++ printed logged)
  logged_to_cout c first logged s ok e l =
      let r = (stop_submits_all cout_parts first logged s l).1 in
      (
        r.0,
        r.1,
        r.2,
        ap (λ (w : Streams). w cout) r.3.same_world ∙ submit_all-printed c logged first ok e,
      )
