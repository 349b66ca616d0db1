-- ===== src/Arbitration/Holder.antt =====
-- The holder of a path among all its claims, in src/fs/caching/claim-set-assignment.ts.
use obsidian_air_sync.Prelude.{
  ◌≡◌, ◌⊎◌, refl, ◌∙◌, sym, true, List, [], ◌∷◌, arith, ◌==◌, nat_eq, All, if◌then◌else◌,
  Bool-cases, inl, inr, ==_refl, ==_no,
}
use obsidian_air_sync.Prelude.Text.{Str, str_eq}
use obsidian_air_sync.Types.Entity.{PathAuthority}
use obsidian_air_sync.Arbitration.{AddressClaim, arbitrate_address, admit_one}
use obsidian_air_sync.Arbitration.Order.{
  before, before_trans, before_irrefl, before_connex, admitted-arbitrate_address, admitted-same_id,
}

abbrev pub IsIn : AddressClaim → List AddressClaim → Type 0
IsIn c [] = ⊥
IsIn c (x ∷ xs) = (c ≡ x) ⊎ IsIn c xs

-- The same object, or one that comes later in the order of the arbiter.
abbrev pub Leads : AddressClaim → AddressClaim → Type 0
Leads a b = (a.id ≡ b.id) ⊎ (before a b ≡ true)

-- The claims of one object agree on its authority, as the cache resolves it once for each id.
abbrev pub Agrees : (Str → PathAuthority) → AddressClaim → Type 0
Agrees auth c = c.authority ≡ auth c.id

module _ (auth : Str → PathAuthority) where
  before_of_same :
      (a b c : AddressClaim)
      → Agrees auth a
      → Agrees auth b
      → Agrees auth c
      → a.id ≡ b.id
      → before b c ≡ true
      → before a c ≡ true
  unfolding before
  before_of_same a b c x y z p q = ground arith

  before_to_same :
      (a b c : AddressClaim)
      → Agrees auth a
      → Agrees auth b
      → Agrees auth c
      → b.id ≡ c.id
      → before a b ≡ true
      → before a c ≡ true
  unfolding before
  before_to_same a b c x y z p q = ground arith

  Leads-trans :
      (a b c : AddressClaim)
      → Agrees auth a
      → Agrees auth b
      → Agrees auth c
      → Leads a b
      → Leads b c
      → Leads a c
  Leads-trans a b c x y z (inl p) (inl q) = inl (p ∙ q)
  Leads-trans a b c x y z (inl p) (inr q) = inr (before_of_same a b c x y z p q)
  Leads-trans a b c x y z (inr p) (inl q) = inr (before_to_same a b c x y z q p)
  Leads-trans a b c x y z (inr p) (inr q) = inr (before_trans a b c p q)

  -- The claim that stays holder leads both.
  abbrev pub next_holder : Str → AddressClaim → AddressClaim → AddressClaim
  next_holder path holder claim =
      if (arbitrate_address path holder claim).admitted_id == holder.id then holder else claim

  next_holder-Leads :
      (path : Str) (h c : AddressClaim)
      → Leads (next_holder path h c) h
        × Leads (next_holder path h c) c
        × ((next_holder path h c ≡ h) ⊎ (next_holder path h c ≡ c))
  next_holder-Leads path h c = elim (str_eq.dec h.id c.id) [
    | yes e ↦ rw (admitted-same_id path h c e, ==_refl h.id) (inl refl, inl e, inl refl)
    | no n ↦ elim (Bool-cases (before h c)) [
      | inl b ↦
          rw (admitted-arbitrate_address path h c n, b, ==_refl h.id) (inl refl, inr b, inl refl)
      | inr b ↦
          rw (admitted-arbitrate_address path h c n, b, ==_no c.id h.id (λ e. n (sym e)))
            (inr (before_connex h c n b), inl refl, inr refl)
    ]
  ]

  Agrees-of :
      (n h c : AddressClaim) → (n ≡ h) ⊎ (n ≡ c) → Agrees auth h → Agrees auth c → Agrees auth n
  Agrees-of n h c (inl e) x y = rw e x
  Agrees-of n h c (inr e) x y = rw e y

  IsIn-of :
      (r n h c : AddressClaim) (group : List AddressClaim)
      → (n ≡ h) ⊎ (n ≡ c)
      → IsIn r (n ∷ group)
      → IsIn r (h ∷ c ∷ group)
  IsIn-of r n h c group (inl e) (inl i) = inl (i ∙ e)
  IsIn-of r n h c group (inr e) (inl i) = inr (inl (i ∙ e))
  IsIn-of r n h c group e (inr i) = inr (inr i)

  admit_one-IsIn :
      (path : Str) (h : AddressClaim) (group : List AddressClaim)
      → IsIn (admit_one path h group) (h ∷ group)
  unfolding admit_one
  admit_one-IsIn path h [] = inl refl
  admit_one-IsIn path h (c ∷ group) =
      IsIn-of (admit_one path h (c ∷ group)) (next_holder path h c) h c group
        (next_holder-Leads path h c).2 (admit_one-IsIn path (next_holder path h c) group)

  abbrev LeadsAll : AddressClaim → AddressClaim → List AddressClaim → Type 0
  LeadsAll r h group = Agrees auth r × All (Leads r) (h ∷ group)

  Leads-step :
      (r n h c : AddressClaim) (group : List AddressClaim)
      → Agrees auth n
      → Agrees auth h
      → Agrees auth c
      → Leads n h
      → Leads n c
      → LeadsAll r n group
      → LeadsAll r h (c ∷ group)
  Leads-step r n h c group w x y a b (u, (p, q)) =
      (u, (Leads-trans r n h u w x p a, (Leads-trans r n c u w y p b, q)))

  admit_one-Leads :
      (path : Str) (h : AddressClaim) (group : List AddressClaim)
      → Agrees auth h
      → All (Agrees auth) group
      → LeadsAll (admit_one path h group) h group
  unfolding admit_one
  admit_one-Leads path h [] x y = (x, (inl refl, tt))
  admit_one-Leads path h (c ∷ group) x (y, ys) =
      let n = next_holder path h c in
      let l = next_holder-Leads path h c in
      let w = Agrees-of n h c l.2 x y in
      Leads-step (admit_one path n group) n h c group w x y l.0 l.1
        (admit_one-Leads path n group w ys)

  Leads-in :
      (r c : AddressClaim) (xs : List AddressClaim) → All (Leads r) xs → IsIn c xs → Leads r c
  Leads-in r c [] p i = elim i [ ]
  Leads-in r c (x ∷ xs) (p, ps) (inl e) = rw e p
  Leads-in r c (x ∷ xs) (p, ps) (inr i) = Leads-in r c xs ps i

  Leads-antisym : (a b : AddressClaim) → Leads a b → Leads b a → a.id ≡ b.id
  Leads-antisym a b (inl p) q = p
  Leads-antisym a b (inr p) (inl q) = sym q
  Leads-antisym a b (inr p) (inr q) = ground (arith, before_trans a b a p q, before_irrefl a)

  -- The holder of an address does not depend on the order in which its claims were seen, nor on
  -- repetitions: two lists with the same claims, the claims of one object with one authority, have
  -- holders with the same id.
  pub admit_one-order_independent :
      (path : Str) (h k : AddressClaim) (group other : List AddressClaim)
      → Agrees auth h
      → All (Agrees auth) group
      → Agrees auth k
      → All (Agrees auth) other
      → ((c : AddressClaim) → IsIn c (h ∷ group) → IsIn c (k ∷ other))
      → ((c : AddressClaim) → IsIn c (k ∷ other) → IsIn c (h ∷ group))
      → (admit_one path h group).id ≡ (admit_one path k other).id
  admit_one-order_independent path h k group other x xs y ys f g =
      Leads-antisym (admit_one path h group) (admit_one path k other)
        (Leads-in (admit_one path h group) (admit_one path k other) (h ∷ group)
          (admit_one-Leads path h group x xs).1
          (g (admit_one path k other) (admit_one-IsIn path k other)))
        (Leads-in (admit_one path k other) (admit_one path h group) (k ∷ other)
          (admit_one-Leads path k other y ys).1
          (f (admit_one path h group) (admit_one-IsIn path h group)))
