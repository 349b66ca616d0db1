-- ===== src/Executor/Kept.antt =====
-- Parts of an action that leave the record store alone, in src/sync/plan-executor.ts.
use obsidian_air_sync.Prelude.{◌≡◌, refl, ◌∙◌, Bool, true, false, if◌then◌else◌}
use obsidian_air_sync.Files.{Failure, Result, ok, failed, M, next, ◌>>=◌, pure, guard}

module _ {S T : Type 0} where
  -- Whatever becomes of the call, the record store is as it was.
  abbrev pub Keeps : {A : Type 0} → M (S × T) A → Type 0
  Keeps f = (w : S × T) → (f w).1.1 ≡ w.1

  module _ {A B : Type 0} where
    pub next-Keeps :
        (r : Result A × (S × T)) (g : A → M (S × T) B) (w : S × T)
        → r.1.1 ≡ w.1
        → ((a : A) → Keeps (g a))
        → (next r g).1.1 ≡ w.1
    next-Keeps (ok a, t) g w h k = k a t ∙ h
    next-Keeps (failed e, t) g w h k = h

    pub bind-Keeps :
        (f : M (S × T) A) (g : A → M (S × T) B)
        → Keeps f
        → ((a : A) → Keeps (g a))
        → Keeps (f >>= g)
    bind-Keeps f g h k w = next-Keeps (f w) g w (h w) k

  module _ {A : Type 0} where
    pub if-Keeps : (b : Bool) (f g : M (S × T) A) → Keeps f → Keeps g → Keeps (if b then f else g)
    if-Keeps true f g h k = h
    if-Keeps false f g h k = k

  pub guard-Keeps : (b : Bool) (e : Failure) → Keeps (guard b e)
  guard-Keeps true e w = refl
  guard-Keeps false e w = refl

  -- A call that fails leaves the record store as it was.
  abbrev pub FailsClean : {A : Type 0} → M (S × T) A → Type 0
  FailsClean f = (w : S × T) (e : Failure) → (f w).0 ≡ failed e → (f w).1.1 ≡ w.1

  module _ {A B : Type 0} where
    next-FailsClean :
        (r : Result A × (S × T)) (g : A → M (S × T) B) (w : S × T) (e : Failure)
        → r.1.1 ≡ w.1
        → ((a : A) → FailsClean (g a))
        → (next r g).0 ≡ failed e
        → (next r g).1.1 ≡ w.1
    next-FailsClean (ok a, t) g w e h k f = k a t e f ∙ h
    next-FailsClean (failed e', t) g w e h k f = h

    pub bind-FailsClean :
        (f : M (S × T) A) (g : A → M (S × T) B)
        → Keeps f
        → ((a : A) → FailsClean (g a))
        → FailsClean (f >>= g)
    bind-FailsClean f g h k w e = next-FailsClean (f w) g w e (h w) k

    next-pure-FailsClean :
        (r : Result A × (S × T)) (g : A → B) (w : S × T) (e : Failure)
        → ((e : Failure) → r.0 ≡ failed e → r.1.1 ≡ w.1)
        → (next r (λ a. pure (g a))).0 ≡ failed e
        → (next r (λ a. pure (g a))).1.1 ≡ w.1
    next-pure-FailsClean (ok a, t) g w e h f = absurd (cc)
    next-pure-FailsClean (failed e', t) g w e h f = h e' refl

    pub bind_pure-FailsClean :
        (f : M (S × T) A) (g : A → B) → FailsClean f → FailsClean (f >>= (λ a. pure (g a)))
    bind_pure-FailsClean f g h w e = next-pure-FailsClean (f w) g w e (h w)
