-- ===== src/Resolver/Policy.antt =====
-- src/sync/conflict-policy-admission.ts: which conflicts the Prefer-local setting may settle.
use obsidian_air_sync.Prelude.{
  ◌≡◌, ◌≢◌, refl, Bool, true, false, not, ◌&&◌, Option, none, some, ◌==◌, if◌then◌else◌, arith,
  Bool-cases, inl, inr,
}
use obsidian_air_sync.Prelude.Text.{Str, str_eq, truthy}
use obsidian_air_sync.Types.Action.{
  ConflictStrategy, auto_merge, prefer_local, duplicate, ConflictExecutionPolicy, merges,
  local_wins, preserve,
}
use obsidian_air_sync.Types.Entity.{FileEntity, SyncRecord}

pub record SamePathConflictFacts : Type 0 where
  pub path : Str
  pub local : Option FileEntity
  pub remote : Option FileEntity
  pub baseline : Option SyncRecord
  pub has_move : Bool
  pub replacement : Bool
  pub has_additional_remote : Bool
  pub has_additional_local : Bool
  pub has_local_path_override : Bool
  pub has_remote_path_override : Bool

abbrev pub is_plain : SamePathConflictFacts → Bool
is_plain facts =
    not facts.has_move
    && not facts.replacement
    && not facts.has_additional_remote
    && not facts.has_additional_local
    && not facts.has_local_path_override
    && not facts.has_remote_path_override

-- `simple` and `proven`, where the three entities are there.
unfoldable pub proven :
    SamePathConflictFacts → Bool → Option FileEntity → Option FileEntity → Option SyncRecord → Bool
proven facts allow (some local) (some remote) (some baseline) =
    allow
    && truthy baseline.hash
    && baseline.path == facts.path
    && local.path == facts.path
    && remote.path == facts.path
    && is_plain facts
    && truthy local.hash
    && truthy remote.hash
    && not (local.hash == baseline.hash)
    && not (remote.hash == baseline.hash)
    && not (local.hash == remote.hash)
proven facts allow _ _ _ = false

unfoldable pub compile_same_path_conflict_contract :
    SamePathConflictFacts → ConflictStrategy → Bool → ConflictExecutionPolicy
compile_same_path_conflict_contract facts auto_merge allow = merges
compile_same_path_conflict_contract facts duplicate allow = preserve duplicate
compile_same_path_conflict_contract facts prefer_local allow =
    if proven facts allow facts.local facts.remote facts.baseline
    then local_wins
    else preserve prefer_local

-- Both sides were edited at one address, to different bytes, since a record of that address.
abbrev pub IsTwoSidedEdit : SamePathConflictFacts → Type 0
IsTwoSidedEdit facts =
    (local : FileEntity) × (remote : FileEntity) × (baseline : SyncRecord) × (facts.local
      ≡ some local)
    × (facts.remote ≡ some remote)
    × (facts.baseline ≡ some baseline)
    × (local.path ≡ facts.path)
    × (remote.path ≡ facts.path)
    × (baseline.path ≡ facts.path)
    × (local.hash ≢ baseline.hash)
    × (remote.hash ≢ baseline.hash)
    × (local.hash ≢ remote.hash)
    × (truthy local.hash && truthy remote.hash && truthy baseline.hash ≡ true)
    × (is_plain facts ≡ true)

proven-IsTwoSidedEdit :
    (facts : SamePathConflictFacts) (allow : Bool) (l r : Option FileEntity) (b : Option SyncRecord)
    → facts.local ≡ l
    → facts.remote ≡ r
    → facts.baseline ≡ b
    → proven facts allow l r b ≡ true
    → (allow ≡ true) × IsTwoSidedEdit facts
unfolding proven
proven-IsTwoSidedEdit facts allow (some local) (some remote) (some baseline) l r b h = (
  ground (arith, h),
  (
    local,
    remote,
    baseline,
    l,
    r,
    b,
    ground (arith, h),
    ground (arith, h),
    ground (arith, h),
    λ e. ground (arith, h, e),
    λ e. ground (arith, h, e),
    λ e. ground (arith, h, e),
    ground (arith, h),
    ground (arith, h),
  ),
)
proven-IsTwoSidedEdit facts allow none remote baseline l r b h = absurd (cc)
proven-IsTwoSidedEdit facts allow (some local) none baseline l r b h = absurd (cc)
proven-IsTwoSidedEdit facts allow (some local) (some remote) none l r b h = absurd (cc)

-- The local version wins by policy only where the strategy is to prefer it, the caller allows it,
-- and the conflict is a plain edit on both sides at one path: three hashes, of the record and of
-- the two sides, no two of them equal, at the path of the conflict, with no move, replacement or
-- additional version.
pub compile_same_path_conflict_contract-IsTwoSidedEdit :
    (facts : SamePathConflictFacts) (strategy : ConflictStrategy) (allow : Bool)
    → compile_same_path_conflict_contract facts strategy allow ≡ local_wins
    → (strategy ≡ prefer_local) × (allow ≡ true) × IsTwoSidedEdit facts
unfolding compile_same_path_conflict_contract
compile_same_path_conflict_contract-IsTwoSidedEdit facts auto_merge allow h = absurd (cc)
compile_same_path_conflict_contract-IsTwoSidedEdit facts duplicate allow h = absurd (cc)
compile_same_path_conflict_contract-IsTwoSidedEdit facts prefer_local allow h =
    elim (Bool-cases (proven facts allow facts.local facts.remote facts.baseline)) [
      | inl e ↦
          let p =
            proven-IsTwoSidedEdit facts allow facts.local facts.remote facts.baseline refl refl refl
              e in
          (refl, p.0, p.1)
      | inr e ↦ absurd (not_proven (proven facts allow facts.local facts.remote facts.baseline) e h)
    ]
  where
    not_proven :
        (b : Bool) → b ≡ false → (if b then local_wins else preserve prefer_local) ≡ local_wins → ⊥
    not_proven b e h = ground (arith, h, e)
