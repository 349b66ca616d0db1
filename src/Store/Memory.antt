-- ===== src/Store/Memory.antt =====
-- A database in memory for src/sync/state.ts.
use obsidian_air_sync.Prelude.{
  ◌≡◌, refl, ◌≢◌, ◌↔◌, Bool, true, false, Option, none, some, List, [], ◌∷◌, arith, ◌==◌, contains,
  ℕ, inl, inr, Bool-cases, Option-cases, if◌then◌else◌, sym, ◌∙◌,
}
use mathlib.Core.Path.{subst}
use mathlib.Core.Option.{some-injective}
use obsidian_air_sync.Prelude.Text.{Str, str_eq}
use obsidian_air_sync.Types.Entity.{SyncRecord}
use obsidian_air_sync.Store.Interface.{Database, IsLawful}

pub record Rows : Type 0 where
  pub keys : List Str
  pub row : Str → Option SyncRecord
  pub base : Str → Option (List ℕ)

abbrev pub no_rows : Rows
no_rows = record { keys = []; row = λ k. none; base = λ k. none }

abbrev pub update : {A : Type 0} → (Str → Option A) → Str → Option A → Str → Option A
update f k v j = if j == k then v else f j

abbrev has_path : Str → Option SyncRecord → Bool
has_path p none = false
has_path p (some r) = r.path == p

find : (Str → Option SyncRecord) → Str → List Str → Option SyncRecord
find row p [] = none
find row p (k ∷ ks) = let rest = find row p ks in if has_path p (row k) then row k else rest

unfoldable pub at_path : Str → Rows → Option SyncRecord
unfolding find
at_path p s = find s.row p s.keys

insert : SyncRecord → Rows → Rows
insert r s = record s {
  keys = r.remote_identity_key ∷ s.keys;
  row = update s.row r.remote_identity_key (some r);
}

-- Only the row at the path, if it is another one, stands against a write.
put_at : Option SyncRecord → SyncRecord → Rows → Option Rows
put_at none r s = some (insert r s)
put_at (some o) r s =
    if o.remote_identity_key == r.remote_identity_key then some (insert r s) else none

unfoldable pub put : SyncRecord → Rows → Option Rows
unfolding put_at insert at_path
put r s = put_at (at_path r.path s) r s

pub record HasUniquePaths (s : Rows) : Type 0 where
  pub keyed : (k : Str) (r : SyncRecord) → s.row k ≡ some r → r.remote_identity_key ≡ k
  pub listed : (k : Str) (r : SyncRecord) → s.row k ≡ some r → contains s.keys k ≡ true
  pub unique :
      (j k : Str) (q r : SyncRecord) → s.row j ≡ some q → s.row k ≡ some r → q.path ≡ r.path → j ≡ k

abbrev pub memory : Database
memory = record {
  State = Rows;
  Content = List ℕ;
  get = λ k s. s.row k;
  at_path = at_path;
  put = put;
  delete = λ k s. record s { row = update s.row k none };
  content = λ k s. s.base k;
  put_content = λ k c s. record s { base = update s.base k (some c) };
  delete_content = λ k s. record s { base = update s.base k none };
  IsConsistent = HasUniquePaths;
}

find_sound :
    (row : Str → Option SyncRecord) (p : Str) (ks : List Str) (r : SyncRecord)
    → find row p ks ≡ some r
    → (k : Str) × (row k ≡ some r) × (r.path ≡ p)
unfolding find
find_sound row p [] r h = cc
find_sound row p (k ∷ ks) r h = elim (Bool-cases (has_path p (row k))) [
  | inl hit ↦ (k, ground arith, ground arith)
  | inr miss ↦ find_sound row p ks r (ground arith)
]

find_complete :
    (row : Str → Option SyncRecord) (p k : Str) (ks : List Str) (r : SyncRecord)
    → contains ks k ≡ true
    → row k ≡ some r
    → r.path ≡ p
    → find row p ks ≢ none
unfolding find
find_complete row p k [] r c h q e = cc
find_complete row p k (j ∷ ks) r c h q e =
    ground (arith, λ (m : contains ks k ≡ true). find_complete row p k ks r m h q)

at_path_both :
    (p : Str) (r : SyncRecord) (s : Rows)
    → HasUniquePaths s
    → (at_path p s ≡ some r) ↔ ((s.row r.remote_identity_key ≡ some r) × (r.path ≡ p))
unfolding at_path
at_path_both p r s u = (λ h. there h, λ (h, q). here h q)
  where
    there : find s.row p s.keys ≡ some r → (s.row r.remote_identity_key ≡ some r) × (r.path ≡ p)
    there h = let (k, e, q) = find_sound s.row p s.keys r h in (ground (arith, u.keyed k r e), q)

    here : s.row r.remote_identity_key ≡ some r → r.path ≡ p → find s.row p s.keys ≡ some r
    here h q = elim (Option-cases (find s.row p s.keys)) [
      | inl e ↦ absurd (find_complete s.row p r.remote_identity_key s.keys r (u.listed _ r h) h q e)
      | inr (o, e) ↦
          let (k, f, place) = find_sound s.row p s.keys o e in
          ground (arith, u.unique k r.remote_identity_key o r f h)
    ]

insert-HasUniquePaths :
    (r : SyncRecord) (s : Rows)
    → HasUniquePaths s
    → ((o : SyncRecord) → at_path r.path s ≡ some o → o.remote_identity_key ≡ r.remote_identity_key)
    → HasUniquePaths (insert r s)
unfolding insert
insert-HasUniquePaths r s u free = record {
  keyed = λ k q h. ground (arith, u.keyed k q);
  listed = λ k q h. ground (arith, u.listed k q);
  unique = λ j k q t h i e. ground (arith, u.unique j k q t, taken j q, taken k t);
}
  where
    taken :
        (k : Str) (t : SyncRecord) → s.row k ≡ some t → t.path ≡ r.path → k ≡ r.remote_identity_key
    taken k t h e =
        let own = u.keyed k t h in
        let stored : s.row t.remote_identity_key ≡ some t = ground arith in
        sym own ∙ free t ((at_path_both r.path t s u).1 (stored, e))

put_at-HasUniquePaths :
    (o : Option SyncRecord) (r : SyncRecord) (s t : Rows)
    → HasUniquePaths s
    → at_path r.path s ≡ o
    → put_at o r s ≡ some t
    → HasUniquePaths t
unfolding put_at
put_at-HasUniquePaths none r s t u e h =
    subst HasUniquePaths (some-injective _ _ h) (insert-HasUniquePaths r s u (λ o f. cc))
put_at-HasUniquePaths (some o) r s t u e h =
    elim (str_eq.dec o.remote_identity_key r.remote_identity_key) [
      | yes same ↦
          subst HasUniquePaths (ground arith) (insert-HasUniquePaths r s u (λ q f. ground arith))
      | no differ ↦ absurd (ground arith)
    ]

row-put_at :
    (o : Option SyncRecord) (r : SyncRecord) (s t : Rows) → put_at o r s ≡ some t → insert r s ≡ t
unfolding put_at
row-put_at none r s t h = some-injective _ _ h
row-put_at (some o) r s t h = ground arith

put-eq-none_iff :
    (r : SyncRecord) (s : Rows) (o : Option SyncRecord)
    → (put_at o r s ≡ none)
      ↔ ((q : SyncRecord) × (o ≡ some q) × (q.remote_identity_key ≢ r.remote_identity_key))
unfolding put_at
put-eq-none_iff r s none = (λ h. cc, λ (q, e, n). cc)
put-eq-none_iff r s (some o) = (λ h. (o, refl, λ same. ground arith), λ (q, e, n). ground arith)

-- The database in memory behaves as documented.
pub memory-IsLawful : IsLawful memory
unfolding put
memory-IsLawful = record {
  put-IsConsistent = λ r s t u h. put_at-HasUniquePaths (at_path r.path s) r s t u refl h;
  delete-IsConsistent = λ k s u. record {
    keyed = λ j r h. ground (arith, u.keyed j r);
    listed = λ j r h. ground (arith, u.listed j r);
    unique = λ j i q r g h e. ground (arith, u.unique j i q r);
  };
  delete_content-IsConsistent =
      λ k s u. record { keyed = u.keyed; listed = u.listed; unique = u.unique };
  put_content-IsConsistent =
      λ k c s u. record { keyed = u.keyed; listed = u.listed; unique = u.unique };
  key_of_get = λ k r s u h. u.keyed k r h;
  at_path_iff = at_path_both;
  put-eq-none = λ r s u. put-eq-none_iff r s (at_path r.path s);
  get-put = λ k r s t h. rw (← row-put_at (at_path r.path s) r s t h) refl;
  content-put = λ k r s t h. rw (← row-put_at (at_path r.path s) r s t h) refl;
  get-delete = λ k j s. refl;
  content-delete = λ k j s. refl;
  get-put_content = λ k j c s. refl;
  content-put_content = λ k j c s. refl;
  get-delete_content = λ k j s. refl;
  content-delete_content = λ k j s. refl;
}

pub no_rows-HasUniquePaths : HasUniquePaths no_rows
no_rows-HasUniquePaths = record {
  keyed = λ k r h. cc;
  listed = λ k r h. cc;
  unique = λ j k q r g h e. cc;
}
