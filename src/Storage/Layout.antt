-- ===== src/Storage/Layout.antt =====
-- storage/layout.rs: the position of an index in its family.
use extended_hypertrie_authe.Prelude.{ℕ, ◌^◌, ◌<◌, ◌≡◌}

-- `trait LayoutTrait`. `Fits` holds of the indices that a family has; their positions are
-- distinct, and not cut by the cast to `u32` in a key.
pub record Layout (K : Type 0) : Type 1 where
  pub position : K → ℕ
  pub Fits : K → Type 0
  pub position-lt : (k : K) → Fits k → position k < 2 ^ 32
  pub position_inj : (j k : K) → Fits j → Fits k → position j ≡ position k → j ≡ k

-- `impl LayoutTrait<usize> for FlattenArray`
unfoldable pub flatten_array_position : ℕ → ℕ
flatten_array_position index = index

pub flatten_array_position-lt : (k : ℕ) → k < 2 ^ 32 → flatten_array_position k < 2 ^ 32
unfolding flatten_array_position
flatten_array_position-lt k h = h

pub flatten_array_position_inj :
    (j k : ℕ)
    → j < 2 ^ 32
    → k < 2 ^ 32
    → flatten_array_position j ≡ flatten_array_position k
    → j ≡ k
unfolding flatten_array_position
flatten_array_position_inj j k p q e = e

abbrev pub flatten_array : Layout ℕ
flatten_array = record {
  position = flatten_array_position;
  Fits = λ k. k < 2 ^ 32;
  position-lt = flatten_array_position-lt;
  position_inj = flatten_array_position_inj;
}
