-- ===== src/Resolver/Resolve/Kept.antt =====
-- The copies that a resolution of src/sync/conflict-resolver.ts makes, and the whole of its result.
use obsidian_air_sync.Prelude.{
  ◌≡◌, ◌⊎◌, ◌==◌, true, false, ◌&&◌, ◌||◌, Option, none, some, List, [], ◌∷◌, option_eq,
}
use obsidian_air_sync.Prelude.Text.{Str, str_eq}
use obsidian_air_sync.Types.Entity.{FileEntity, SyncSide, local, remote}
use obsidian_air_sync.Files.{FileSystems, ChecksumRegistry}
use obsidian_air_sync.Types.Action.{Role, VerifiedConflictOutput}
use obsidian_air_sync.Resolver.Snapshot.{ExactSnapshot}
use obsidian_air_sync.Resolver.Snapshot.Captured.{IsCaptured}
use obsidian_air_sync.Types.Action.{ConflictExecutionPolicy}
use obsidian_air_sync.Resolver.Resolve.{
  ConflictResolverContext, Services, ConflictResolutionResult, PreparedConflict, or_else, is_given,
  is_duplicated, both, content_of, compound, snapshots_of,
}
use obsidian_air_sync.Resolver.Resolve.Outcome.{IsJustified}

-- One output for each snapshot, in order, with its role, its path and its bytes.
abbrev pub AreCopies : List (Role × ExactSnapshot) → List VerifiedConflictOutput → Type 0
AreCopies [] [] = Unit
AreCopies [] (o ∷ outputs) = ⊥
AreCopies (p ∷ snaps) [] = ⊥
AreCopies ((role, snap) ∷ snaps) (o ∷ outputs) =
    (o.role ≡ role)
    × (o.source_path ≡ snap.path)
    × (o.source_content ≡ snap.content)
    × AreCopies snaps outputs

module _ {ℓ} (services : Services) (ctx : ConflictResolverContext) (fs : FileSystems {ℓ})
    (registry : ChecksumRegistry) where
  -- Every version that could lose its address is copied.
  abbrev pub Preserves : FileEntity → PreparedConflict → ConflictResolutionResult → Type 0
  Preserves other prepared r =
      compound services ctx other
          || (is_duplicated services ctx r.action && is_given services ctx r.captured_local)
        ≡ true
      → AreCopies (snapshots_of services ctx fs registry prepared) r.verified_outputs

  -- An optional version is captured if there is one, between the two states.
  abbrev pub Captures :
      SyncSide
      → Option Str
      → Option FileEntity
      → fs.State
      → fs.State
      → Option ExactSnapshot
      → Type ℓ
  Captures side path none s t captured = (captured ≡ none) × (s ≡ t)
  Captures side path (some e) s t captured =
      (snap : ExactSnapshot) × (captured ≡ some snap)
      × IsCaptured fs registry side (or_else path e.path) e s t snap

  -- The primary has to move first exactly where the identity source is elsewhere, and then it is the source.
  abbrev pub IsRotation : ExactSnapshot → Option FileEntity → Option FileEntity → Type 0
  IsRotation primary none rotation = rotation ≡ none
  IsRotation primary (some source) rotation =
      (source.path ≡ ctx.path) × (rotation ≡ none)
      ⊎ (source.path == ctx.path ≡ false)
        × (source.path ≡ primary.path)
        × (source.identity_key ≡ primary.entity.identity_key)
        × (rotation ≡ some source)

  -- The three versions were captured one after the other, each where the conflict has it.
  abbrev pub IsPrepared : FileEntity → fs.State → fs.State → PreparedConflict → Type ℓ
  IsPrepared other s t prepared =
      (u : fs.State) × (v : fs.State) × IsCaptured fs registry remote
        (or_else ctx.remote_path other.path) other s u prepared.primary
      × Captures remote none ctx.additional_remote u v prepared.additional
      × Captures local none ctx.additional_local v t prepared.local
      × IsRotation prepared.primary ctx.remote_identity_source prepared.rotation

  -- What a resolution of two versions is: all versions were captured, the decision is justified, and the
  -- copies that it needs are made.
  abbrev pub IsResolved :
      ConflictExecutionPolicy → FileEntity → fs.State → ConflictResolutionResult → Type ℓ
  IsResolved policy other s r =
      (prepared : PreparedConflict) × (u : fs.State) × IsPrepared other s u prepared
      × (r.captured_remote ≡ some prepared.primary)
      × IsJustified services ctx policy
          (both services ctx ctx.local (content_of services ctx r.captured_local))
          (content_of services ctx r.captured_local) prepared.primary r
      × Preserves other prepared r
