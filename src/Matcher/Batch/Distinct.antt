-- ===== src/Matcher/Batch/Distinct.antt =====
-- src/core/matcher/engine.rs, `apply_unique_target_paths`: the targets of a batch are pairwise
-- distinct and free.
use subx_core.Prelude.{
  ℕ, zero, suc, ◌+◌, ◌≡◌, ◌≤◌, ◌<◌, refl, sym, ap, ◌∙◌, true, false, not, ◌&&◌, List, [], ◌∷◌,
  Option, none, some, Text, ◌==◌, arith, length, get_elem?, set, get_elem?-set_self,
  get_elem?-set_ne, Bool-cases, Option-cases, inl, inr, ==_iff, subst,
}
use subx_core.Matcher.Types.{PathBuf, join, ◌=ᵖ◌, has_path, MatchOperation}
use subx_core.Matcher.Targets.{is_taken, first_counter, resolve}
use subx_core.Matcher.Targets.Probe.{HasRoom, resolve-parent, resolve-free}
use subx_core.Matcher.Batch.{target_of, rewritten, final_target, settle, resolved_target, allocate}
use subx_core.Matcher.Batch.Order.{occurs, IsDistinct}

module _ {ℓ} {A : Type ℓ} where
  pub get_elem?-lt-length : (xs : List A) (i : ℕ) (a : A) → get_elem? xs i ≡ some a → i < length xs
  get_elem?-lt-length [] i a h = ground arith
  get_elem?-lt-length (x ∷ xs) zero a h = omega arith
  get_elem?-lt-length (x ∷ xs) (suc i) a h = omega (arith, get_elem?-lt-length xs i a h)

is_taken-false :
    (claimed reserved disk : List PathBuf) (candidate source p : PathBuf)
    → is_taken claimed reserved disk candidate source p ≡ false
    → (has_path claimed p ≡ false) × ((not (p =ᵖ source) && has_path disk p) ≡ false)
unfolding is_taken
is_taken-false claimed reserved disk candidate source p h = ground arith

target_of-rewritten :
    (o : Option PathBuf) (dir : List Text) (name : Text) (p : PathBuf)
    → p.parent ≡ (target_of o dir name).parent
    → target_of (rewritten o p) dir p.file_name ≡ p
unfolding target_of rewritten join
target_of-rewritten none dir name p h = ap (λ d. join d p.file_name) (sym h)
target_of-rewritten (some q) dir name p h = refl

module _ {F : Type 0} where
  pub final_target-settle :
      (op : MatchOperation F) (p : PathBuf)
      → p.parent ≡ (final_target op).parent
      → final_target (settle op p) ≡ p
  unfolding final_target settle
  final_target-settle op p h =
      target_of-rewritten op.relocation_target_path op.subtitle_file.path.parent
        op.new_subtitle_name p h

  -- Nothing stands on the disk at the target, unless it is the operation's own source.
  unfoldable pub IsFree : List PathBuf → MatchOperation F → Type 0
  IsFree disk op =
      (not (final_target op =ᵖ op.subtitle_file.path) && has_path disk (final_target op)) ≡ false

  pub settle-resolved_target :
      (claimed reserved disk : List PathBuf) (op : MatchOperation F)
      → final_target (settle op (resolved_target claimed reserved disk op))
        ≡ resolved_target claimed reserved disk op
  unfolding resolved_target
  settle-resolved_target claimed reserved disk op =
      let taken = is_taken claimed reserved disk (final_target op) op.subtitle_file.path in
      final_target-settle op (resolve taken (final_target op))
        (resolve-parent taken (final_target op))

  resolved_target-free :
      (claimed reserved disk : List PathBuf) (op : MatchOperation F)
      → HasRoom claimed reserved disk (final_target op)
      → let p = resolved_target claimed reserved disk op in
        (has_path claimed p ≡ false)
        × ((not (p =ᵖ op.subtitle_file.path) && has_path disk p) ≡ false)
  unfolding resolved_target
  resolved_target-free claimed reserved disk op room =
      let candidate = final_target op in
      let source = op.subtitle_file.path in
      is_taken-false claimed reserved disk candidate source
        (resolve (is_taken claimed reserved disk candidate source) candidate)
        (resolve-free claimed reserved disk candidate source room)

  pub allocate-other :
      (disk reserved : List PathBuf) (indices : List ℕ) (operations : List (MatchOperation F))
      (claimed : List PathBuf) (i : ℕ)
      → occurs i indices ≡ false
      → get_elem? (allocate disk reserved indices operations claimed) i ≡ get_elem? operations i
  unfolding allocate occurs
  allocate-other disk reserved [] operations claimed i h = refl
  allocate-other disk reserved (idx ∷ indices) operations claimed i h =
      elim (Option-cases (get_elem? operations idx)) [
        | inl e ↦ ground (arith, allocate-other disk reserved indices operations claimed i)
        | inr (op, e) ↦
            let p = resolved_target claimed reserved disk op in
            ground (
              arith,
              e,
              allocate-other disk reserved indices (set operations idx (settle op p)) (p ∷ claimed)
                  i,
              get_elem?-set_ne operations {i = idx} {j = i} (settle op p) (ground arith),
            )
      ]

  pub allocate-found :
      (disk reserved : List PathBuf) (idx : ℕ) (indices : List ℕ)
      (operations : List (MatchOperation F)) (claimed : List PathBuf) (op : MatchOperation F)
      → get_elem? operations idx ≡ some op
      → allocate disk reserved (idx ∷ indices) operations claimed
        ≡ allocate disk reserved indices
            (set operations idx (settle op (resolved_target claimed reserved disk op)))
            (resolved_target claimed reserved disk op ∷ claimed)
  unfolding allocate
  allocate-found disk reserved idx indices operations claimed op e = rw (e, allocate) refl

  pub allocate-missing :
      (disk reserved : List PathBuf) (idx : ℕ) (indices : List ℕ)
      (operations : List (MatchOperation F)) (claimed : List PathBuf)
      → get_elem? operations idx ≡ none
      → allocate disk reserved (idx ∷ indices) operations claimed
        ≡ allocate disk reserved indices operations claimed
  unfolding allocate
  allocate-missing disk reserved idx indices operations claimed e = rw (e, allocate) refl

  -- What the batch does to one of its operations.
  unfoldable pub IsSettled : List PathBuf → MatchOperation F → MatchOperation F → Type 0
  unfolding IsFree
  IsSettled disk op out =
      IsFree disk out
      × (out.new_subtitle_name ≡ (final_target out).file_name)
      × (out.subtitle_file ≡ op.subtitle_file)

  -- The operation at `i` after the loop, with a target that no path of `claimed` is.
  unfoldable pub Outcome :
      List PathBuf → List PathBuf → MatchOperation F → List (MatchOperation F) → ℕ → Type 0
  Outcome disk claimed op operations i =
      (out : MatchOperation F) × (get_elem? operations i ≡ some out)
      × IsSettled disk op out
      × (has_path claimed (final_target out) ≡ false)

  settle-IsSettled :
      (claimed reserved disk : List PathBuf) (op : MatchOperation F)
      → HasRoom claimed reserved disk (final_target op)
      → IsSettled disk op (settle op (resolved_target claimed reserved disk op))
        × (has_path claimed (final_target (settle op (resolved_target claimed reserved disk op)))
            ≡ false)
  unfolding IsSettled IsFree settle
  settle-IsSettled claimed reserved disk op room =
      let p = settle-resolved_target claimed reserved disk op in
      let (unclaimed, free) = resolved_target-free claimed reserved disk op room in
      ((rw p free, ap (λ q. q.file_name) (sym p), refl), rw p unclaimed)

  allocate-here :
      (disk reserved : List PathBuf) (idx : ℕ) (indices : List ℕ)
      (operations : List (MatchOperation F)) (claimed : List PathBuf) (op : MatchOperation F)
      → occurs idx indices ≡ false
      → get_elem? operations idx ≡ some op
      → HasRoom claimed reserved disk (final_target op)
      → Outcome disk claimed op (allocate disk reserved (idx ∷ indices) operations claimed) idx
  unfolding Outcome
  allocate-here disk reserved idx indices operations claimed op d e room =
      let p = resolved_target claimed reserved disk op in
      let (settled, unclaimed) = settle-IsSettled claimed reserved disk op room in
      (
        settle op p,
        ap (λ ops. get_elem? ops idx)
              (allocate-found disk reserved idx indices operations claimed op e)
            ∙ allocate-other disk reserved indices (set operations idx (settle op p)) (p ∷ claimed)
                idx d
            ∙ get_elem?-set_self operations idx (settle op p)
                (get_elem?-lt-length operations idx op e),
        settled,
        unclaimed,
      )

  Outcome-claimed :
      (disk claimed : List PathBuf) (p : PathBuf) (op : MatchOperation F)
      (operations : List (MatchOperation F)) (i : ℕ)
      → Outcome disk (p ∷ claimed) op operations i
      → Outcome disk claimed op operations i
  unfolding Outcome has_path
  Outcome-claimed disk claimed p op operations i (out, found, settled, h) =
      (out, found, settled, ground arith)

  pub allocate-IsSettled :
      (disk reserved : List PathBuf) (indices : List ℕ) (operations : List (MatchOperation F))
      (claimed : List PathBuf) (i : ℕ) (op : MatchOperation F) (bound : ℕ)
      → IsDistinct indices
      → occurs i indices ≡ true
      → get_elem? operations i ≡ some op
      → length indices + length claimed ≤ bound
      → first_counter (final_target op).file_name + bound + length reserved + length disk ≤ 9999
      → Outcome disk claimed op (allocate disk reserved indices operations claimed) i
  unfolding occurs IsDistinct HasRoom
  allocate-IsSettled disk reserved [] operations claimed i op bound d m e l room =
      absurd (ground arith)
  allocate-IsSettled disk reserved (idx ∷ indices) operations claimed i op bound (n, d) m e l room =
      elim (Bool-cases (idx == i)) [
        | inl q ↦
            let same = (==_iff idx i).0 q in
            subst
              (Outcome disk claimed op (allocate disk reserved (idx ∷ indices) operations claimed))
              same
              (allocate-here disk reserved idx indices operations claimed op n (rw same e)
                (omega arith))
        | inr q ↦ elim (Option-cases (get_elem? operations idx)) [
          | inl o ↦ rw (allocate-missing disk reserved idx indices operations claimed o) (
              allocate-IsSettled disk reserved indices operations claimed i op bound d
                (ground arith) e (omega arith) room)
          | inr (other, o) ↦
              let p = resolved_target claimed reserved disk other in
              rw (allocate-found disk reserved idx indices operations claimed other o) (
                Outcome-claimed disk claimed p op _ i (
                  allocate-IsSettled disk reserved indices (set operations idx (settle other p))
                    (p ∷ claimed) i op bound d (ground arith)
                    (get_elem?-set_ne operations (settle other p) (ground arith) ∙ e) (omega arith)
                    room))
        ]
      ]
