-- ===== src/Aml/Split.antt =====
-- `build_payout_list` (app/custom/aml/functions.py): how a deposit is split over addresses. An amount
-- is in the units of its token, a ratio in hundredths, so a piece is in hundredths of a unit.
use tron_shkeeper.Base.{
  ℕ, ◌+◌, ◌-◌, ◌*◌, String, Bool, true, Option, none, some, List, [], ◌∷◌, ◌&&◌, ◌=s◌, ◌==◌, leb,
  contains, if◌then◌else◌,
}
use tron_shkeeper.Payout.Types.{Result, ok, err}
use tron_shkeeper.Scanner.Events.{
  Drain, DrainType, aml, regular, symbol_not_found, get_external_drain_type,
}

-- An address and its part: a ratio of a configuration, or a piece of an amount.
abbrev pub Share : Type 0
Share = String × ℕ

-- `AmlRiskConfig`; scores are in hundred-thousandths.
pub record RiskLevel : Type 0 where
  pub min_value : ℕ
  pub max_value : ℕ
  pub addresses : List Share

-- EXTERNAL_DRAIN_CONFIG, for the symbol that is asked for.
pub record SplitConfig : Type 0 where
  pub drain : Drain
  pub risk_scores : List RiskLevel
  pub regular_split : List Share

-- `Transaction` of app/custom/aml/models.py, as far as it is read here; the score is `none` where it is
-- -1.
pub record Deposit : Type 0 where
  pub tx_id : String
  pub ttype : String
  pub status : String
  pub score : Option ℕ
  pub amount : ℕ

-- `Payout` of the same file; the amount that is sent is the calculated one less a cost.
pub record PaidRow : Type 0 where
  pub tx_id : String
  pub address : String
  pub amount_calc : ℕ
  pub cost : ℕ
  pub external_tx_id : String
  pub status : String

unfoldable pub find_deposit : String → List Deposit → Option Deposit
find_deposit tx_id [] = none
find_deposit tx_id (t ∷ ts) = if t.tx_id =s tx_id then some t else find_deposit tx_id ts

-- The addresses that the transaction was paid to.
unfoldable pub addresses_done : String → List PaidRow → List String
addresses_done tx_id [] = []
addresses_done tx_id (r ∷ rs) =
    let rest = addresses_done tx_id rs in if r.tx_id =s tx_id then r.address ∷ rest else rest

-- `check_split_perc_sum`: the ratios' sum is one.
unfoldable pub total : List Share → ℕ
total [] = 0
total ((address, part) ∷ rest) = part + total rest

abbrev pub check_split_perc_sum : List Share → Bool
check_split_perc_sum shares = total shares == 100

-- The pieces of an amount, of which that much is taken: the last address gets the rest.
unfoldable pub split_amount : ℕ → ℕ → List Share → List Share
split_amount amount taken [] = []
split_amount amount taken ((address, ratio) ∷ []) = (address, amount * 100 - taken) ∷ []
split_amount amount taken ((address, ratio) ∷ next ∷ rest) =
    (address, amount * ratio) ∷ split_amount amount (taken + amount * ratio) (next ∷ rest)

-- The pieces that are not paid.
unfoldable pub unpaid : List String → List Share → List Share
unpaid done [] = []
unpaid done ((address, part) ∷ rest) =
    let others = unpaid done rest in
    if contains address done then others else (address, part) ∷ others

unfoldable pub all_done : List String → List Share → Bool
all_done done [] = true
all_done done ((address, part) ∷ rest) = contains address done && all_done done rest

-- The pieces of a deposit that are left, if there are some.
unfoldable pub payouts_left : List String → ℕ → List Share → Option (List Share)
unfolding split_amount unpaid all_done
payouts_left done amount shares =
    if all_done done shares then none else some (unpaid done (split_amount amount 0 shares))

-- The shares of the first risk level that the score is in.
unfoldable pub level_of : ℕ → List RiskLevel → Option (List Share)
level_of score [] = none
level_of score (level ∷ levels) =
    if leb level.min_value score && leb score level.max_value
    then some level.addresses
    else level_of score levels

abbrev pub score_shares : Option ℕ → List RiskLevel → Option (List Share)
score_shares none levels = none
score_shares (some score) levels = level_of score levels

-- The shares of a deposit, where it is to be paid out.
unfoldable pub shares_of : SplitConfig → Deposit → DrainType → Option (List Share)
unfolding level_of
shares_of config t symbol_not_found = none
shares_of config t (aml minimum) =
    if t.ttype =s "aml" && t.status =s "ready"
    then score_shares t.score config.risk_scores
    else none
shares_of config t regular =
    if t.ttype =s "regular" && t.status =s "drained" then none else some config.regular_split

abbrev pub left_of : List String → ℕ → Option (List Share) → Option (List Share)
left_of done amount none = none
left_of done amount (some shares) = payouts_left done amount shares

-- The list for a deposit that was found.
unfoldable pub list_for :
    SplitConfig → List String → Deposit → Result DrainType → Result (Option (List Share))
unfolding shares_of payouts_left
list_for config done t (err e) = err e
list_for config done t (ok drain_type) = ok (left_of done t.amount (shares_of config t drain_type))

-- `build_payout_list`; `none` is False or None.
unfoldable pub build_payout_list :
    SplitConfig → String → String → List Deposit → List PaidRow → Result (Option (List Share))
unfolding find_deposit addresses_done list_for get_external_drain_type
build_payout_list config symbol tx_id deposits rows = elim (find_deposit tx_id deposits) [
  | none ↦ ok none
  | some t ↦
      if t.ttype =s "from_fee"
      then ok none
      else list_for config (addresses_done tx_id rows) t
          (get_external_drain_type config.drain symbol)
]
