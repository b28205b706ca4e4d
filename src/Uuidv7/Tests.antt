-- ===== src/Uuidv7/Tests.antt =====
-- The generator of src/core/uuidv7.rs on a clock where every other sleep has no effect.
use subx_core.Prelude.{ℕ, zero, suc, ◌+◌, [], ◌∷◌}
use subx_core.Uuidv7.{Clock}

-- The reading, and whether the next sleep has no effect.
abbrev uneven : Clock
uneven = record {
  State = ℕ × ℕ;
  now_v7 = λ st. (0 ∷ 0 ∷ 0 ∷ 0 ∷ 0 ∷ st.0 ∷ [], st);
  sleep = λ wait st. elim st.1 [ zero ↦ (st.0 + wait, 1) | suc k ↦ (st.0, 0) ];
}
