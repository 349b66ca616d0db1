-- ===== src/Files.antt =====
-- The two file systems of a sync cycle (`IFileSystem` of src/fs/interface.ts), as the resolver and the
-- executor call them. Each call gives the state after it, so that what other
-- programs do in between is part of it. An error is a value.
use obsidian_air_sync.Prelude.{ℕ, Bool, true, false, Option, none, List, ◌≡◌, refl, ap}
use obsidian_air_sync.Prelude.Text.{Str}
use obsidian_air_sync.Types.Entity.{FileEntity, SyncSide}
use obsidian_air_sync.Retry.{ThrownError}

-- The kinds of a `ContentProofError` with their cause, the executor's `TerminalInvariantError`, and any
-- other thrown value.
pub data Failure : Type 0 where
  proof_mismatch terminal_invariant : Failure
  external_io_failure external_auth_failure thrown : ThrownError → Failure

-- `new Error(…)`
abbrev pub plain_error : ThrownError
plain_error = record {
  is_auth_failure = false;
  is_permanent = false;
  permanent_code = none;
  status = none;
  retry_after = none;
}

pub data Result (A : Type 0) : Type 0 where
  ok : A → Result A
  failed : Failure → Result A

abbrev pub M {ℓ} : Type ℓ → Type 0 → Type ℓ
M S A = S → Result A × S

abbrev pub next {ℓ} :
    {S : Type ℓ} {A B : Type 0} → Result A × S → (A → S → Result B × S) → Result B × S
next (ok a, s) f = f a s
next (failed e, s) f = (failed e, s)

infixl 5 ◌>>=◌ ◌>>◌
abbrev pub ◌>>=◌ {ℓ} :
    {S : Type ℓ} {A B : Type 0} → (S → Result A × S) → (A → S → Result B × S) → S → Result B × S
◌>>=◌ m f s = next (m s) f

abbrev pub ◌>>◌ {ℓ} :
    {S : Type ℓ} {B : Type 0} → (S → Result (Unit {0}) × S) → (S → Result B × S) → S → Result B × S
◌>>◌ m k s = next (m s) (λ _ t. k t)

abbrev pub pure {ℓ} : {S : Type ℓ} {A : Type 0} → A → S → Result A × S
pure a s = (ok a, s)

abbrev pub fail {ℓ} : {S : Type ℓ} {A : Type 0} → Failure → S → Result A × S
fail e s = (failed e, s)

abbrev pub guard {ℓ} : {S : Type ℓ} → Bool → Failure → S → Result (Unit {0}) × S
guard true e s = (ok tt, s)
guard false e s = (failed e, s)

pub record FileSystems {ℓ} : Type (ℓ + 1) where
  pub State : Type ℓ
  pub stat : SyncSide → Str → State → Result (Option FileEntity) × State
  pub read : SyncSide → Str → State → Result (List ℕ) × State
  pub write : SyncSide → Str → List ℕ → ℕ → State → Result (Unit {0}) × State
  pub delete : SyncSide → Str → State → Result (Unit {0}) × State
  pub rename : SyncSide → Str → Str → State → Result (Unit {0}) × State
  pub has_children : SyncSide → Str → State → Option Bool × State

-- The checksum algorithms that the backends registered.
pub record ChecksumRegistry : Type 0 where
  pub has : Str → Bool
  pub compute : List ℕ → Str → Str

-- What a successful step did before it went on.
pub next-eq-ok {ℓ} :
    {S : Type ℓ} {A B : Type 0} (r : Result A × S) (f : A → S → Result B × S) {b : B} {t : S}
    → next r f ≡ (ok b, t)
    → (a : A) × (u : S) × (r ≡ (ok a, u)) × (f a u ≡ (ok b, t))
next-eq-ok (ok a, u) f h = (a, u, refl, h)
next-eq-ok (failed e, u) f h = absurd (cc)

pub guard-eq-ok {ℓ} :
    {S : Type ℓ} (b : Bool) (e : Failure) (s t : S) {u : Unit {0}}
    → guard b e s ≡ (ok u, t)
    → (b ≡ true) × (s ≡ t)
guard-eq-ok true e s t h = (refl, ap (λ r. r.1) h)
guard-eq-ok false e s t h = absurd (cc)
