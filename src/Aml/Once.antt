-- ===== src/Aml/Once.antt =====
-- Proofs about runs of `AmlWallet.payout_for_tx` (app/custom/aml/classes.py).
use tron_shkeeper.Base.{ℕ, ◌+◌, ◌≤◌, String}
use tron_shkeeper.Aml.Payouts.{Books}
use tron_shkeeper.Aml.Counts.{paid_times, times}

module _ (tx_id a : String) where
  -- The address has at most so many rows, and each transfer has a row or is among the lost ones.
  pub record IsBooked (n : ℕ) (b : Books) : Type 0 where
    pub paid : paid_times tx_id a b.rows ≤ n
    pub recorded : times tx_id a b.transfers ≤ paid_times tx_id a b.rows + times tx_id a b.lost
