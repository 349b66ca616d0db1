-- ===== src/Resolver/Resolve/Outcome.antt =====
-- What a resolution of src/sync/conflict-resolver.ts keeps of the two versions.
use mathlib.Core.Path.{subst}
use obsidian_air_sync.Prelude.{
  ℕ, ◌≡◌, ◌⊎◌, ◌<◌, refl, sym, true, false, not, ◌&&◌, ◌||◌, Option, none, some, List, ltb, max,
  ◌==◌, nat_eq, option_eq, if◌then◌else◌, arith, Bool-cases, inl, inr, ==_iff,
}
use obsidian_air_sync.Prelude.Text.{str_eq}
use obsidian_air_sync.Types.Entity.{FileEntity}
use obsidian_air_sync.Paths.{is_merge_eligible}
use obsidian_air_sync.Files.{Result, ok}
use obsidian_air_sync.Resolver.Snapshot.{ExactSnapshot}
use obsidian_air_sync.Types.Action.{ConflictExecutionPolicy, merges, local_wins, preserve}
use obsidian_air_sync.Resolver.Resolve.{
  ConflictResolverContext, Services, kept_local, kept_remote, duplicated, merged,
  ConflictResolutionResult, resolution, by_time, by_merge, merge_base, auto_merged, local_win_of,
  merge_of, both, content_of, resolve_prepared_with_policy, extension_is_json, or_else,
}

result_injective : {A : Type 0} (a b : A) → ◌≡◌ {A = Result A} (ok a) (ok b) → a ≡ b
result_injective a b h = ground (arith, h)

module _ (services : Services) (ctx : ConflictResolverContext) where
  -- The remote version gives way only where the policy says so, where the local one is newer, or where it
  -- has the same bytes; the local one only where the remote one is newer, or where there is none. A merged
  -- text is the merge of both with the base, and a merged JSON file is valid and has no markers.
  abbrev pub IsJustified :
      ConflictExecutionPolicy
      → Option (FileEntity × List ℕ)
      → Option (List ℕ)
      → ExactSnapshot
      → ConflictResolutionResult
      → Type 0
  IsJustified policy own mine other r =
      ((r.action ≡ kept_local)
        × ((e : FileEntity) × (content : List ℕ) × (own ≡ some (e, content))
            × (r.target_content ≡ some content)
            × ((policy ≡ local_wins) ⊎ (other.entity.mtime < e.mtime) ⊎ (content ≡ other.content))))
      ⊎ ((r.action ≡ kept_remote)
          × (policy ≡ merges)
          × (r.target_content ≡ some other.content)
          × ((own ≡ none)
              ⊎ ((e : FileEntity) × (content : List ℕ) × (own ≡ some (e, content))
                  × (e.mtime < other.entity.mtime))))
      ⊎ ((r.action ≡ merged)
          × (policy ≡ merges)
          × ((e : FileEntity) × (content : List ℕ) × (base : List ℕ) × (own ≡ some (e, content))
              × (merge_base services ctx ctx.baseline ≡ some base)
              × (r.target_content ≡ some (services.three_way_merge base content other.content).0)
              × (extension_is_json services ctx ≡ true
                  → ((services.three_way_merge base content other.content).1 ≡ false)
                    × (services.is_valid_json
                          (services.three_way_merge base content other.content).0
                        ≡ true))))
      ⊎ ((r.action ≡ duplicated) × (r.target_content ≡ some (or_else mine other.content)))

  module _ (own : FileEntity) (content : List ℕ) (other : ExactSnapshot) where
    by_time-cases :
        ((by_time services ctx own content other
            ≡ resolution kept_remote other.content other.entity.mtime)
          × (own.mtime < other.entity.mtime))
        ⊎ ((by_time services ctx own content other ≡ resolution kept_local content own.mtime)
            × ((other.entity.mtime < own.mtime) ⊎ (content ≡ other.content)))
        ⊎ (by_time services ctx own content other ≡ resolution duplicated content own.mtime)
    unfolding by_time
    by_time-cases =
        elim (Bool-cases
          (ltb 0 own.mtime && ltb 0 other.entity.mtime && ltb own.mtime other.entity.mtime)) [
            | inl e ↦ inl (ground (arith, e), ground (arith, e))
            | inr e ↦
                elim (Bool-cases (
                  ltb 0 own.mtime
                  && ltb 0 other.entity.mtime
                  && ltb other.entity.mtime own.mtime)) [
                    | inl f ↦ inr (inl (ground (arith, e, f), inl (ground (arith, f))))
                    | inr f ↦ elim (Bool-cases (content == other.content)) [
                      | inl g ↦
                          inr (
                            inl (ground (arith, e, f, g), inr ((==_iff content other.content).0 g)))
                      | inr g ↦ inr (inr (ground (arith, e, f, g)))
                    ]
                  ]
          ]

    by_time-IsJustified :
        IsJustified merges
          (some (own, content))
          (some content)
          other
          (by_time services ctx own content other)
    by_time-IsJustified = elim by_time-cases [
      | inl (e, l) ↦
          subst (IsJustified merges (some (own, content)) (some content) other) (sym e)
            (inr (inl (refl, refl, refl, inr (own, content, refl, l))))
      | inr (inl (e, w)) ↦
          subst (IsJustified merges (some (own, content)) (some content) other) (sym e)
            (inl (refl, (own, content, refl, refl, inr w)))
      | inr (inr e) ↦
          subst (IsJustified merges (some (own, content)) (some content) other) (sym e)
            (inr (inr (inr (refl, refl))))
    ]

    by_merge-IsJustified :
        (base : List ℕ)
        → merge_base services ctx ctx.baseline ≡ some base
        → IsJustified merges
            (some (own, content))
            (some content)
            other
            (by_merge services ctx own content other base)
    unfolding by_merge
    by_merge-IsJustified base b =
        let (text, markers) = services.three_way_merge base content other.content in
        elim (Bool-cases
          (extension_is_json services ctx && (markers || not (services.is_valid_json text)))) [
            | inl e ↦
                subst (IsJustified merges (some (own, content)) (some content) other)
                  (sym (unmerged e)) (inr (inr (inr (refl, refl))))
            | inr e ↦
                subst (IsJustified merges (some (own, content)) (some content) other)
                  (sym (joined e))
                  (inr (
                    inr (
                      inl (
                        refl,
                        refl,
                        (own, content, base, refl, b, refl, λ j. ground (arith, e, j)),
                      ))))
          ]
      where
        unmerged :
            extension_is_json services ctx
                && ((services.three_way_merge base content other.content).1
                    || not (
                        services.is_valid_json
                          (services.three_way_merge base content other.content).0))
              ≡ true
            → by_merge services ctx own content other base ≡ resolution duplicated content own.mtime
        unmerged e = ground (arith, e)

        joined :
            extension_is_json services ctx
                && ((services.three_way_merge base content other.content).1
                    || not (
                        services.is_valid_json
                          (services.three_way_merge base content other.content).0))
              ≡ false
            → by_merge services ctx own content other base
              ≡ record (resolution merged
                  (services.three_way_merge base content other.content).0
                  services.now) {
                    has_conflict_markers = (services.three_way_merge base content other.content).1;
                  }
        joined e = ground (arith, e)

    auto_merged-IsJustified :
        (base : Option (List ℕ))
        → merge_base services ctx ctx.baseline ≡ base
        → IsJustified merges
            (some (own, content))
            (some content)
            other
            (auto_merged services ctx own content other base)
    unfolding auto_merged
    auto_merged-IsJustified none b = by_time-IsJustified
    auto_merged-IsJustified (some base) b =
        elim (is_merge_eligible services.to_lower_case ctx.path (max own.size other.entity.size))
          as (λ c. IsJustified merges (some (own, content)) (some content) other (
            if c
            then by_merge services ctx own content other base
            else by_time services ctx own content other)) [
              | true ↦ by_merge-IsJustified base b
              | false ↦ by_time-IsJustified
            ]

  merge_of-IsJustified :
      (other : ExactSnapshot) (own : Option (FileEntity × List ℕ)) (mine : Option (List ℕ))
      → ((e : FileEntity) (content : List ℕ) → own ≡ some (e, content) → mine ≡ some content)
      → IsJustified merges own mine other (merge_of services ctx other own)
  unfolding merge_of
  merge_of-IsJustified other none mine m = inr (inl (refl, refl, refl, inl refl))
  merge_of-IsJustified other (some (own, content)) mine m =
      subst
        (λ c.
          IsJustified merges (some (own, content)) c other
            (auto_merged services ctx own content other (merge_base services ctx ctx.baseline)))
        (sym (m own content refl))
        (auto_merged-IsJustified own content other (merge_base services ctx ctx.baseline) refl)

  local_win_of-IsJustified :
      (other : ExactSnapshot) (own : Option (FileEntity × List ℕ)) (mine : Option (List ℕ))
      (r : ConflictResolutionResult)
      → local_win_of services ctx own ≡ ok r
      → IsJustified local_wins own mine other r
  unfolding local_win_of
  local_win_of-IsJustified other none mine r h = absurd (cc)
  local_win_of-IsJustified other (some (own, content)) mine r h =
      subst (IsJustified local_wins (some (own, content)) mine other) (result_injective _ r h)
        (inl (refl, (own, content, refl, refl, inl refl)))

  content-both :
      (local : Option FileEntity) (mine : Option (List ℕ)) (e : FileEntity) (content : List ℕ)
      → both services ctx local mine ≡ some (e, content)
      → mine ≡ some content
  content-both (some own) (some bytes) e content h = ground (arith, h)
  content-both (some own) none e content h = absurd (cc)
  content-both none mine e content h = absurd (cc)

  pub decided-IsJustified :
      (policy : ConflictExecutionPolicy) (other : ExactSnapshot) (captured : Option ExactSnapshot)
      (r : ConflictResolutionResult)
      → resolve_prepared_with_policy services ctx policy other captured ≡ ok r
      → IsJustified policy
          (both services ctx ctx.local (content_of services ctx captured))
          (content_of services ctx captured)
          other
          r
  unfolding resolve_prepared_with_policy
  decided-IsJustified (preserve strategy) other captured r h =
      subst
        (IsJustified (preserve strategy)
          (both services ctx ctx.local (content_of services ctx captured))
          (content_of services ctx captured) other)
        (result_injective _ r h) (inr (inr (inr (refl, refl))))
  decided-IsJustified local_wins other captured r h =
      local_win_of-IsJustified other
        (both services ctx ctx.local (content_of services ctx captured))
        (content_of services ctx captured) r h
  decided-IsJustified merges other captured r h =
      subst
        (IsJustified merges (both services ctx ctx.local (content_of services ctx captured))
          (content_of services ctx captured) other)
        (result_injective _ r h)
        (merge_of-IsJustified other (both services ctx ctx.local (content_of services ctx captured))
          (content_of services ctx captured)
          (content-both ctx.local (content_of services ctx captured)))
