-- ===== src/R2/Score.antt =====
-- r2/score.py: the rating. `Rows`, `Gates`, `Merge`, `Totals` and `Rating` are the stages of
-- `score_r2`, in its order; the other children prove.
pub mod Rows
pub mod Gates
pub mod Merge
pub mod Totals
pub mod Rating
pub mod Value
pub mod Caps
pub mod Monotone
pub mod Sound
pub mod Index
pub mod Neutral
pub mod Fired
