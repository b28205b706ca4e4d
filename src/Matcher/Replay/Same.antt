-- ===== src/Matcher/Replay/Same.antt =====
-- src/core/matcher/engine.rs: a plan that is saved, and what is rebuilt from it.
use subx_core.Prelude.{
  ℕ, suc, ◌≡◌, refl, ap, ◌∙◌, true, ◌&&◌, List, [], ◌∷◌, map, none, some, Text, =ᵗ-refl,
  if◌then◌else◌, ok,
}
use subx_core.Matcher.Types.{PathBuf, join, MatchOperation, video, subtitle}
use subx_core.Matcher.Plan.{MatchConfig, relocation_of}
use subx_core.Matcher.Replay.{
  OpItem, Files, is_cache_version_current, current_cache_version, item_of, saved, rebuilt_file,
  rebuilt_operation, rebuild_items, check_cache_data, load, Json, check_file_list_cache,
}

module _ {F : Type 0} where
  -- The relocation of the operation is the one that the mode asks for.
  unfoldable pub IsConsistent : MatchConfig F → MatchOperation F → Type 0
  IsConsistent config op =
      (op.relocation_mode ≡ config.relocation_mode)
      × (op.requires_relocation
          ≡ relocation_of config.relocation_mode op.video_file.path op.subtitle_file.path)
      × (op.relocation_target_path ≡ (
          if relocation_of config.relocation_mode op.video_file.path op.subtitle_file.path
          then some (join op.video_file.path.parent op.new_subtitle_name)
          else none))

  -- Both operations have the same files by their paths, the same name, confidence and reasons, and the
  -- same relocation.
  unfoldable pub HasPlanOf : MatchOperation F → MatchOperation F → Type 0
  HasPlanOf op op' =
      (op.video_file.path ≡ op'.video_file.path)
      × (op.subtitle_file.path ≡ op'.subtitle_file.path)
      × (op.new_subtitle_name ≡ op'.new_subtitle_name)
      × (op.confidence ≡ op'.confidence)
      × (op.reasoning ≡ op'.reasoning)
      × (op.relocation_mode ≡ op'.relocation_mode)
      × (op.requires_relocation ≡ op'.requires_relocation)
      × (op.relocation_target_path ≡ op'.relocation_target_path)

  unfoldable pub HavePlanOf : List (MatchOperation F) → List (MatchOperation F) → Type 0
  unfolding HasPlanOf
  HavePlanOf [] [] = Unit
  HavePlanOf [] (op' ∷ ops') = ⊥
  HavePlanOf (op ∷ ops) [] = ⊥
  HavePlanOf (op ∷ ops) (op' ∷ ops') = HasPlanOf op op' × HavePlanOf ops ops'

  -- The paths of the operations survive their conversion to text and back, the files are still there, and
  -- the operations are consistent.
  unfoldable pub IsReplayable : Files → MatchConfig F → List (MatchOperation F) → Type 0
  unfolding IsConsistent
  IsReplayable files config [] = Unit
  IsReplayable files config (op ∷ ops) =
      (files.path_from (files.to_string_lossy op.video_file.path) ≡ op.video_file.path)
      × (files.path_from (files.to_string_lossy op.subtitle_file.path) ≡ op.subtitle_file.path)
      × ((files.exists op.video_file.path && files.exists op.subtitle_file.path) ≡ true)
      × ((n : ℕ) × (files.metadata op.video_file.path ≡ some n))
      × ((n : ℕ) × (files.metadata op.subtitle_file.path ≡ some n))
      × IsConsistent config op
      × IsReplayable files config ops

  module _ (files : Files) (config : MatchConfig F) where
    rebuilt-HasPlanOf :
        (op : MatchOperation F) (i m n : ℕ)
        → IsConsistent config op
        → HasPlanOf op (
            rebuilt_operation files config
              (item_of files op)
              (rebuilt_file files video i m op.video_file.path)
              (rebuilt_file files subtitle (suc i) n op.subtitle_file.path))
    unfolding IsConsistent HasPlanOf rebuilt_operation rebuilt_file item_of
    rebuilt-HasPlanOf op i m n (mode, requires, target) =
        (refl, refl, refl, refl, refl, mode, requires, target)

    rebuild_items-step :
        (i : ℕ) (item : OpItem F) (items : List (OpItem F)) (v s : PathBuf) (m n : ℕ)
        (out : List (MatchOperation F))
        → files.path_from item.video_file ≡ v
        → files.path_from item.subtitle_file ≡ s
        → (files.exists v && files.exists s) ≡ true
        → files.metadata v ≡ some m
        → files.metadata s ≡ some n
        → rebuild_items files config (suc (suc i)) items ≡ ok out
        → rebuild_items files config i (item ∷ items)
          ≡ ok (
              rebuilt_operation files config item
                (rebuilt_file files video i m v)
                (rebuilt_file files subtitle (suc i) n s)
              ∷ out)
    unfolding rebuild_items
    rebuild_items-step i item items v s m n out vp sp there vm sm e =
        rw (vp, sp, there, rebuild_items, vp, sp, vm, sm, e) refl

    checked-data :
        (cache_key : Text) (ops out : List (MatchOperation F))
        → rebuild_items files config 0 (map (item_of files) ops) ≡ ok out
        → check_cache_data files config cache_key (some (saved files cache_key ops)) ≡ ok (some out)
    unfolding check_cache_data saved is_cache_version_current
    checked-data cache_key ops out e = rw (=ᵗ-refl current_cache_version, =ᵗ-refl cache_key, e) refl

    checked-saved :
        (json : Json F) (cache_key : Text) (ops out : List (MatchOperation F))
        → json.from_json (json.to_json (saved files cache_key ops))
          ≡ some (saved files cache_key ops)
        → rebuild_items files config 0 (map (item_of files) ops) ≡ ok out
        → check_file_list_cache files config json cache_key
            (some (json.to_json (saved files cache_key ops)))
          ≡ ok (some out)
    unfolding check_file_list_cache load
    checked-saved json cache_key ops out read e =
        ap (check_cache_data files config cache_key) read ∙ checked-data cache_key ops out e

    rebuild_items-total :
        (i : ℕ) (ops : List (MatchOperation F))
        → IsReplayable files config ops
        → (out : List (MatchOperation F)) × (rebuild_items files config i (map (item_of files) ops)
            ≡ ok out)
          × HavePlanOf ops out
    unfolding rebuild_items IsReplayable HavePlanOf
    rebuild_items-total i [] r = ([], refl, tt)
    rebuild_items-total i (op ∷ ops) (vp, sp, there, (m, vm), (n, sm), c, r) =
        let (out, e, h) = rebuild_items-total (suc (suc i)) ops r in
        (
          rebuilt_operation files config (item_of files op)
                (rebuilt_file files video i m op.video_file.path)
                (rebuilt_file files subtitle (suc i) n op.subtitle_file.path)
              ∷ out,
          rebuild_items-step i (item_of files op) (map (item_of files) ops) op.video_file.path
              op.subtitle_file.path m n out (unfold item_of in vp) (unfold item_of in sp) there vm
              sm e,
          (rebuilt-HasPlanOf op i m n c, h),
        )

    -- A plan that is saved and then checked under the same key is rebuilt, when the JSON of the saved
    -- data is read back, the paths survive their conversion to text, the files are still there and the
    -- relocations are those of the mode: each operation has the same paths, name, confidence, reasons
    -- and target.
    pub check_file_list_cache-saved :
        (json : Json F) (cache_key : Text) (ops : List (MatchOperation F))
        → json.from_json (json.to_json (saved files cache_key ops))
          ≡ some (saved files cache_key ops)
        → IsReplayable files config ops
        → (out : List (MatchOperation F)) × (check_file_list_cache files config json cache_key
              (some (json.to_json (saved files cache_key ops)))
            ≡ ok (some out))
          × HavePlanOf ops out
    check_file_list_cache-saved json cache_key ops read r =
        let (out, e, h) = rebuild_items-total 0 ops r in
        (out, checked-saved json cache_key ops out read e, h)
