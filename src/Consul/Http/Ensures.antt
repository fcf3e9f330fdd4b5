-- ===== src/Consul/Http/Ensures.antt =====
-- What a call of src/consul/mod.rs that is bound to another gives, and what holds of its value.
use probes.Prelude.{◌≡◌, ◌≢◌, refl, ok, err, returns, panics, ◌⊎◌, inl, inr}
use probes.Consul.Http.{Try, ◌>>=◌}

-- What holds of the value of a call that succeeds.
unfoldable pub Ensures {ℓ} : {A : Type ℓ} → (A → Type 0) → Try A → Type 0
Ensures P (returns (ok a)) = P a
Ensures P (returns (err e)) = Unit
Ensures P panics = Unit

pub Ensures-bind {ℓ κ} :
    {A : Type ℓ} {B : Type κ} (P : B → Type 0) (m : Try A) (f : A → Try B)
    → ((a : A) → m ≡ returns (ok a) → Ensures P (f a))
    → Ensures P (m >>= f)
unfolding Ensures
Ensures-bind P (returns (ok a)) f h = h a refl
Ensures-bind P (returns (err e)) f h = tt
Ensures-bind P panics f h = tt

pub Ensures-ok {ℓ} :
    {A : Type ℓ} (P : A → Type 0) (m : Try A) {a : A} → m ≡ returns (ok a) → Ensures P m → P a
unfolding Ensures
Ensures-ok P m e h = rw e at h

pub bind-eq-ok {ℓ κ} :
    {A : Type ℓ} {B : Type κ} (m : Try A) (f : A → Try B) {b : B}
    → (m >>= f) ≡ returns (ok b)
    → (a : A) × (m ≡ returns (ok a)) × (f a ≡ returns (ok b))
bind-eq-ok (returns (ok a)) f h = (a, refl, h)
bind-eq-ok (returns (err e)) f h = absurd (cc)
bind-eq-ok panics f h = absurd (cc)

pub bind-panics {ℓ κ} :
    {A : Type ℓ} {B : Type κ} (m : Try A) (f : A → Try B)
    → (m >>= f) ≡ panics
    → (m ≡ panics) ⊎ ((a : A) × (m ≡ returns (ok a)) × (f a ≡ panics))
bind-panics (returns (ok a)) f h = inr (a, refl, h)
bind-panics (returns (err e)) f h = absurd (cc)
bind-panics panics f h = inl refl

-- What does not panic has given a value to what panics behind it.
pub bind-panics_after {ℓ κ} :
    {A : Type ℓ} {B : Type κ} (m : Try A) (f : A → Try B)
    → m ≢ panics
    → (m >>= f) ≡ panics
    → (a : A) × (m ≡ returns (ok a)) × (f a ≡ panics)
bind-panics_after m f sound h = elim (bind-panics m f h) [ inl p ↦ absurd (sound p) | inr r ↦ r ]
