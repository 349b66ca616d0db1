-- ===== src/Pool/Mutex.antt =====
-- The holders of the lock of src/backend-api/async-queue.ts.
use obsidian_air_sync.Prelude.{
  ℕ, ◌≡◌, ◌≢◌, ◌⊎◌, inl, inr, refl, sym, ap, ◌∙◌, true, false, Option, none, some, List, [], ◌∷◌,
  ◌++◌, if◌then◌else◌, arith, length-append, length,
}
use obsidian_air_sync.Pool.{AsyncMutex, async_mutex, acquire, unlock}

-- The lock with its holders, the callers that asked for it, and those that got it, in order.
pub record Lock : Type 0 where
  pub mutex : AsyncMutex
  pub holders : List ℕ
  pub asked : List ℕ
  pub got : List ℕ

-- The callers that an operation lets in.
abbrev pub let_in : List ℕ → AsyncMutex → List ℕ → Lock → Lock
let_in holders mutex callers l = record l {
  mutex = mutex;
  holders = holders ++ callers;
  got = l.got ++ callers;
}

abbrev pub list_of : Option ℕ → List ℕ
list_of none = []
list_of (some n) = n ∷ []

List-cases : (xs : List ℕ) → (xs ≡ []) ⊎ ((n : ℕ) × (rest : List ℕ) × (xs ≡ n ∷ rest))
List-cases [] = inl refl
List-cases (n ∷ rest) = inr (n, rest, refl)

-- `run`: a caller asks, and a holder whose callback has settled releases.
pub data Step : Lock → Lock → Type 0 where
  asks :
      (l : Lock) (caller : ℕ)
      → Step l
          (record (let_in l.holders
            (acquire caller l.mutex).0
            (if (acquire caller l.mutex).1 then caller ∷ [] else [])
            l) { asked = l.asked ++ caller ∷ [] })
  leaves :
      (l : Lock) (front back : List ℕ) (caller : ℕ) (next : AsyncMutex) (woken : Option ℕ)
      → l.holders ≡ front ++ caller ∷ back
      → unlock l.mutex ≡ some (next, woken)
      → Step l (let_in (front ++ back) next (list_of woken) l)

pub data Reachable : Lock → Type 0 where
  starts : Reachable (record { mutex = async_mutex; holders = []; asked = []; got = [] })
  steps : (l k : Lock) → Reachable l → Step l k → Reachable k

-- A free lock, without holder or waiter, or a lock with one holder.
abbrev pub Exclusive : AsyncMutex → List ℕ → Type 0
Exclusive m holders =
    ((m.locked ≡ false) × (holders ≡ []) × (m.waiting ≡ []))
    ⊎ ((m.locked ≡ true) × (length holders ≡ 1))

append_nil : (xs : List ℕ) → xs ++ [] ≡ xs
append_nil [] = refl
append_nil (x ∷ xs) = ap (λ ys. x ∷ ys) (append_nil xs)

append_assoc : (xs ys zs : List ℕ) → (xs ++ ys) ++ zs ≡ xs ++ (ys ++ zs)
append_assoc [] ys zs = refl
append_assoc (x ∷ xs) ys zs = ap (λ ws. x ∷ ws) (append_assoc xs ys zs)

-- A single holder is the one that leaves.
no_other :
    (front back : List ℕ) (caller : ℕ) → length (front ++ caller ∷ back) ≡ 1 → front ++ back ≡ []
no_other [] [] caller h = refl
no_other [] (x ∷ back) caller h = absurd (omega arith)
no_other (x ∷ []) back caller h = absurd (omega arith)
no_other (x ∷ y ∷ front) back caller h = absurd (omega arith)

asked_all : (l : Lock) → l.mutex.waiting ≡ [] → l.got ++ l.mutex.waiting ≡ l.asked → l.got ≡ l.asked
asked_all l c g = sym (append_nil l.got) ∙ ap (λ w. l.got ++ w) (sym c) ∙ g

asks-Exclusive :
    (l : Lock) (caller : ℕ)
    → Exclusive l.mutex l.holders
    → l.got ++ l.mutex.waiting ≡ l.asked
    → Exclusive
        (acquire caller l.mutex).0
        (l.holders ++ (if (acquire caller l.mutex).1 then caller ∷ [] else []))
      × ((l.got ++ (if (acquire caller l.mutex).1 then caller ∷ [] else []))
            ++ (acquire caller l.mutex).0.waiting
          ≡ l.asked ++ caller ∷ [])
unfolding acquire
asks-Exclusive l caller (inl (a, b, c)) g =
    simp (a, b, c)
      (
        inr (refl, refl),
        append_nil (l.got ++ caller ∷ []) ∙ ap (λ w. w ++ caller ∷ []) (asked_all l c g),
      )
asks-Exclusive l caller (inr (a, b)) g = rw a (
  inr (refl, rw (append_nil l.holders) b),
  rw (append_nil l.got)
      (sym (append_assoc l.got l.mutex.waiting (caller ∷ [])) ∙ ap (λ w. w ++ caller ∷ []) g),
)

unlock_last :
    (m next : AsyncMutex) (woken : Option ℕ)
    → m.locked ≡ true
    → m.waiting ≡ []
    → unlock m ≡ some (next, woken)
    → (woken ≡ none) × (next.locked ≡ false) × (next.waiting ≡ [])
unfolding unlock
unlock_last m next woken a w u = ground arith

unlock_next :
    (m next : AsyncMutex) (woken : Option ℕ) (n : ℕ) (rest : List ℕ)
    → m.locked ≡ true
    → m.waiting ≡ n ∷ rest
    → unlock m ≡ some (next, woken)
    → (woken ≡ some n) × (next.locked ≡ true) × (next.waiting ≡ rest)
unfolding unlock
unlock_next m next woken n rest a w u = ground arith

leaves-Exclusive :
    (m : AsyncMutex) (holders front back waiting : List ℕ) (caller : ℕ) (next : AsyncMutex)
    (woken : Option ℕ)
    → holders ≡ front ++ caller ∷ back
    → m.waiting ≡ waiting
    → unlock m ≡ some (next, woken)
    → Exclusive m holders
    → Exclusive next ((front ++ back) ++ list_of woken) × (list_of woken ++ next.waiting ≡ waiting)
leaves-Exclusive m holders front back waiting caller next woken e w u (inl (a, b, c)) =
    absurd (omega (arith, ap length (sym e ∙ b), length-append front (caller ∷ back)))
leaves-Exclusive m holders front back [] caller next woken e w u (inr (a, b)) =
    let n = no_other front back caller (ap length (sym e) ∙ b) in
    let v = unlock_last m next woken a w u in simp (n, v.0) (inl (v.1, refl, v.2), v.2)
leaves-Exclusive m holders front back (x ∷ rest) caller next woken e w u (inr (a, b)) =
    let n = no_other front back caller (ap length (sym e) ∙ b) in
    let v = unlock_next m next woken x rest a w u in
    simp (n, v.0) (inr (v.1, refl), ap (λ ws. x ∷ ws) v.2)

-- In every reachable state the lock has at most one holder, and none exactly when it is not locked,
-- when nobody waits; and the callers that got it are, in order, the first of those that asked.
pub Reachable-Exclusive :
    (l : Lock) → Reachable l → Exclusive l.mutex l.holders × (l.got ++ l.mutex.waiting ≡ l.asked)
Reachable-Exclusive _ starts = (inl (refl, refl, refl), refl)
Reachable-Exclusive _ (steps l _ r (asks _ caller)) =
    let h = Reachable-Exclusive l r in asks-Exclusive l caller h.0 h.1
Reachable-Exclusive _ (steps l _ r (leaves _ front back caller next woken e u)) =
    let h = Reachable-Exclusive l r in
    let k =
      leaves-Exclusive l.mutex l.holders front back l.mutex.waiting caller next woken e refl u
        h.0 in
    (k.0, append_assoc l.got (list_of woken) next.waiting ∙ ap (λ w. l.got ++ w) k.1 ∙ h.1)

locked_unlocks : (m : AsyncMutex) → m.locked ≡ true → unlock m ≢ none
unfolding unlock
locked_unlocks m h u = elim (List-cases m.waiting) [ inl e ↦ ground arith | inr e ↦ ground arith ]

-- The release of a holder does not throw.
pub release_of_holder :
    (l : Lock) (caller : ℕ) (front back : List ℕ)
    → Reachable l
    → l.holders ≡ front ++ caller ∷ back
    → unlock l.mutex ≢ none
unfolding unlock
release_of_holder l caller front back r e u = elim (Reachable-Exclusive l r).0 [
  | inl h ↦ omega (arith, ap length (sym e ∙ h.1), length-append front (caller ∷ back))
  | inr h ↦ locked_unlocks l.mutex h.0 u
]
