-- ===== src/Publisher/Handle/Ownership.antt =====
-- RegistrationHandle (registration_handle.hpp) as the owner of one token.
use my_server.Common.{false, ℕ, ◌≡◌, ◌≢◌, sym, true, some, arith, update, update_self, update_ne}
use my_server.Common.Outcome.{done}
use my_server.Publisher.Types.{PublishToken, invalid_token}
use my_server.Publisher.Registry.{TokenRegistry, release, resolve}
use my_server.Publisher.Registry.Invariant.{IsConsistent}
use my_server.Publisher.Registry.Release.{ReleasedWith, release_lem}
use my_server.Publisher.Handle.{RegistrationHandle, Registries, valid, release_handle}

-- The handle holds a token of registry `i` that resolves to channel `c`.
pub record Owns (rs : Registries) (h : RegistrationHandle) (i c : ℕ) : Type 0 where
  pub attached : h.registry ≡ some i
  pub resolves : resolve (rs i) h.token ≡ some c

-- A token that resolves is not `kInvalidToken`.
resolve-ne-invalid :
    (r : TokenRegistry) (t : PublishToken) (c : ℕ) → resolve r t ≡ some c → t ≢ invalid_token
unfolding resolve
resolve-ne-invalid r t c e z = ground arith

pub Owns-valid :
    (rs : Registries) (h : RegistrationHandle) (i c : ℕ) → Owns rs h i c → valid h ≡ true
unfolding valid
Owns-valid rs h i c o =
    rw o.attached (ground (arith, resolve-ne-invalid (rs i) h.token c o.resolves))

-- What a release of the handle leaves: its token resolves no more.
pub record HandleReleased (extra : ℕ → ℕ) (rs : Registries) (h : RegistrationHandle) (i c : ℕ)
    (rs' : Registries) : Type 0 where
  pub outcome : release_handle h rs ≡ some (rs', record h { token = invalid_token })
  pub registry : ReleasedWith extra (rs i) h.token c (rs' i)
  pub others : (j : ℕ) → j ≢ i → rs' j ≡ rs j

pub release_handle-done :
    (rs : Registries) (h : RegistrationHandle) (i : ℕ) (q : TokenRegistry)
    → h.registry ≡ some i
    → valid h ≡ true
    → release h.token (rs i) ≡ done q tt
    → release_handle h rs ≡ some (update rs i q, record h { token = invalid_token })
unfolding release_handle
release_handle-done rs h i q at v e = ground arith

-- A handle that owns a token gives back just that token, and keeps none.
pub release_handle_owned :
    {extra : ℕ → ℕ} (rs : Registries) (h : RegistrationHandle) (i c : ℕ)
    → IsConsistent extra (rs i)
    → Owns rs h i c
    → (rs' : Registries) × HandleReleased extra rs h i c rs'
release_handle_owned {extra} rs h i c ok o = (
  update rs i a.0,
  record {
    outcome = release_handle-done rs h i a.0 o.attached (Owns-valid rs h i c o) a.1;
    registry = rw (update_self rs i a.0) a.2;
    others = λ j ne. update_ne rs i a.0 j (λ e. ne (sym e));
  },
)
  where
    a :
        (q : TokenRegistry) × (release h.token (rs i) ≡ done q tt)
        × ReleasedWith extra (rs i) h.token c q
    a = release_lem (rs i) h.token c ok o.resolves

-- What a release of a handle that owns nothing leaves alone: everything but the token.
pub release_handle_idle :
    (rs : Registries) (h : RegistrationHandle)
    → valid h ≡ false
    → release_handle h rs ≡ some (rs, record h { token = invalid_token })
unfolding release_handle
release_handle_idle rs h e = ground (arith, e)
