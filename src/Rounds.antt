-- ===== src/Rounds.antt =====
-- The row of the table rounds, RoundRow of crates/kemuri-storage/src/repos/mod.rs, with the columns
-- that evaluation and aggregation read. Its counts are i32 columns that the writer fills with
-- numbers of samples.
pub mod Stats
use kemuri.Base.{ℕ, Option, List}
use kemuri.Base.Text.{Text}

pub record RoundRow : Type 0 where
  pub internal_id : ℕ
  pub check_internal_id : ℕ
  pub observer_internal_id : ℕ
  pub scheduled_at : Text
  pub execution_status : Text
  pub configured_samples : ℕ
  pub attempted_samples : ℕ
  pub latency_bearing_samples : ℕ
  pub healthy_samples : ℕ
  pub unhealthy_samples : ℕ
  pub measurement_loss_samples : ℕ
  pub min_latency_ns : Option ℕ
  pub max_latency_ns : Option ℕ
  pub sample_blob : Option (List ℕ)
