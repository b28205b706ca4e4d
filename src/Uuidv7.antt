-- ===== src/Uuidv7.antt =====
-- src/core/uuidv7.rs: the generator of identifiers with strictly increasing time stamps. An
-- identifier is the list of its bytes. `Clock` is the `uuid` crate with the system clock, and the
-- sleep of the thread.
pub mod Spacing
pub mod Tests
use subx_core.Prelude.{
  ℕ, zero, suc, ◌+◌, ◌-◌, ◌*◌, ◌^◌, List, [], ◌∷◌, Option, none, some, leb, if◌then◌else◌, get_or,
}

abbrev pub Uuid : Type 0
Uuid = List ℕ

pub record Clock : Type 1 where
  pub State : Type 0
  pub now_v7 : State → Uuid × State
  pub sleep : ℕ → State → State

-- The bytes are shifted into disjoint bits, so their disjunction is their sum.
unfoldable pub unix_time_ms : Uuid → ℕ
unix_time_ms id =
    get_or id 0 0 * 2 ^ 40
    + get_or id 1 0 * 2 ^ 32
    + get_or id 2 0 * 2 ^ 24
    + get_or id 3 0 * 2 ^ 16
    + get_or id 4 0 * 2 ^ 8
    + get_or id 5 0

module _ (clock : Clock) where
  -- The loop of `next_id`, with `last_unix_ts_ms`; `none` means that the fuel ran out.
  unfoldable pub next_id : ℕ → Option ℕ → clock.State → Option (Uuid × clock.State)
  next_id zero last st = none
  next_id (suc fuel) none st = some (clock.now_v7 st)
  next_id (suc fuel) (some last) st =
      let (id, st') = clock.now_v7 st in
      let ts = unix_time_ms id in
      let again = next_id fuel (some last) (clock.sleep (last - ts + 1) st') in
      if leb ts last then again else some (id, st')

  -- The loop of `generate_ids`, `count` identifiers after the time stamp `last`.
  unfoldable pub ids_from : ℕ → ℕ → Option ℕ → clock.State → Option (List Uuid × clock.State)
  unfolding next_id
  ids_from fuel zero last st = some ([], st)
  ids_from fuel (suc count) last st = elim (next_id fuel last st) [
    | none ↦ none
    | some (id, st') ↦ elim (ids_from fuel count (some (unix_time_ms id)) st') [
      | none ↦ none
      | some (ids, st'') ↦ some (id ∷ ids, st'')
    ]
  ]

  unfoldable pub generate_ids : ℕ → ℕ → clock.State → Option (List Uuid × clock.State)
  unfolding ids_from
  generate_ids fuel count st = ids_from fuel count none st
