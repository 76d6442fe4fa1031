-- ===== src/Errors.antt =====
-- The error values of the packages scat, procs, stores, stripe, index and checksum that other
-- code compares or passes on. `foreign` stands for an error of code outside the repository,
-- `exit_error` for an exec.ExitError with its Stderr.
use scat.Prelude.{ℕ, List}

pub data Error : Type 0 where
  foreign : ℕ → Error
  missing_data : Error → Error
  exit_error : List ℕ → Error
  integrity_check_failed short unreturned_slots : Error
  unprocessed_chunk process_ended dup_chunk : Error
  too_many_chunks non_contiguous missing_group invalid_group_size : Error
  sized_data_required verification_failed no_readers no_stored_data : Error
  stripe_short invalid_index_line invalid_hash_length zero_bytes no_chunk : Error
