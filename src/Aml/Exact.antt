-- ===== src/Aml/Exact.antt =====
-- Proofs about the list of payouts of `build_payout_list` (app/custom/aml/functions.py).
use mathlib.Core.List.{Memᴰ}
use tron_shkeeper.Base.{
  ℕ, ◌+◌, ◌-◌, ◌*◌, ◌≡◌, refl, ◌∙◌, sym, ap, subst, String, true, Option, none, some, List, [], ◌∷◌,
  inl, inr, Bool-cases, contains, ◌=s◌, ◌&&◌, leb, if◌then◌else◌, arith,
}
use tron_shkeeper.Payout.Types.{Result, ok, err}
use tron_shkeeper.Scanner.Events.{
  DrainType, aml, regular, symbol_not_found, get_external_drain_type,
}
use tron_shkeeper.Aml.Split.{
  Share, RiskLevel, SplitConfig, Deposit, PaidRow, find_deposit, addresses_done, total,
  check_split_perc_sum, split_amount, unpaid, all_done, payouts_left, level_of, score_shares,
  shares_of, left_of, list_for, build_payout_list,
}

-- Each address gets its ratio of the amount.
unfoldable pub exact_shares : ℕ → List Share → List Share
exact_shares amount [] = []
exact_shares amount ((address, ratio) ∷ rest) = (address, amount * ratio) ∷ exact_shares amount rest

total_split :
    (amount ratio rest taken : ℕ)
    → taken + amount * (ratio + rest) ≡ amount * 100
    → taken + amount * ratio + amount * rest ≡ amount * 100
total_split amount ratio rest taken all =
    let apart : amount * (ratio + rest) ≡ amount * ratio + amount * rest = grind arith in
    omega (arith, all, apart)

split_amount-exact :
    (amount taken : ℕ) (shares : List Share)
    → taken + amount * total shares ≡ amount * 100
    → split_amount amount taken shares ≡ exact_shares amount shares
unfolding split_amount exact_shares total
split_amount-exact amount taken [] all = refl
split_amount-exact amount taken ((address, ratio) ∷ []) all =
    let apart = total_split amount ratio 0 taken all in
    let rest : amount * 100 - taken ≡ amount * ratio = omega (arith, apart) in
    ap (λ part. (address, part) ∷ []) rest
split_amount-exact amount taken ((address, ratio) ∷ next ∷ rest) all =
    ap (λ others. (address, amount * ratio) ∷ others)
      (split_amount-exact amount (taken + amount * ratio) (next ∷ rest)
        (total_split amount ratio (total (next ∷ rest)) taken all))

-- The pieces that are paid.
unfoldable pub paid : List String → List Share → List Share
paid done [] = []
paid done ((address, part) ∷ rest) =
    if contains address done then (address, part) ∷ paid done rest else paid done rest

total-unpaid-paid :
    (done : List String) (pieces : List Share)
    → total (unpaid done pieces) + total (paid done pieces) ≡ total pieces
unfolding total unpaid paid
total-unpaid-paid done [] = refl
total-unpaid-paid done ((address, part) ∷ rest) =
    let others = total-unpaid-paid done rest in
    elim (Bool-cases (contains address done)) [
      | inl yes_done ↦ rw yes_done (omega (arith, others))
      | inr not_done ↦ rw not_done (omega (arith, others))
    ]

total-exact_shares :
    (amount : ℕ) (shares : List Share) → total (exact_shares amount shares) ≡ amount * total shares
unfolding total exact_shares
total-exact_shares amount [] = grind arith
total-exact_shares amount ((address, ratio) ∷ rest) =
    let others = total-exact_shares amount rest in
    let apart : amount * (ratio + total rest) ≡ amount * ratio + amount * total rest =
      grind arith in
    omega (arith, others, apart)

-- The shares of a configuration that its validator let pass.
pub record IsValid (config : SplitConfig) : Type 0 where
  pub levels :
      (level : RiskLevel)
      → Memᴰ level config.risk_scores
      → check_split_perc_sum level.addresses ≡ true
  pub split : check_split_perc_sum config.regular_split ≡ true

-- What holds of the shares of each risk level, and of the regular ones, holds of those of a deposit.
module _ (P : List Share → Type 0) where
  level_of-holds :
      (score : ℕ) (levels : List RiskLevel) {shares : List Share}
      → ((level : RiskLevel) → Memᴰ level levels → P level.addresses)
      → level_of score levels ≡ some shares
      → P shares
  unfolding level_of
  level_of-holds score [] holds found = absurd (ground (arith, found))
  level_of-holds score (level ∷ levels) {shares} holds found =
      elim (Bool-cases (leb level.min_value score && leb score level.max_value)) [
        | inl here ↦
            let same : level.addresses ≡ shares = ground (arith, found, here) in
            subst P same (holds level (Memᴰ.head refl))
        | inr later ↦
            level_of-holds score levels (λ l m. holds l (Memᴰ.tail m))
              (ground (arith, found, later))
      ]

  score_shares-holds :
      (score : Option ℕ) (levels : List RiskLevel) {shares : List Share}
      → ((level : RiskLevel) → Memᴰ level levels → P level.addresses)
      → score_shares score levels ≡ some shares
      → P shares
  score_shares-holds none levels holds found = absurd (ground (arith, found))
  score_shares-holds (some n) levels holds found = level_of-holds n levels holds found

  pub shares_of-holds :
      (config : SplitConfig) (t : Deposit) (drain_type : DrainType) {shares : List Share}
      → ((level : RiskLevel) → Memᴰ level config.risk_scores → P level.addresses)
      → P config.regular_split
      → shares_of config t drain_type ≡ some shares
      → P shares
  unfolding shares_of
  shares_of-holds config t symbol_not_found levels split found = absurd (ground (arith, found))
  shares_of-holds config t regular {shares} levels split found =
      let same : config.regular_split ≡ shares = ground (arith, found) in subst P same split
  shares_of-holds config t (aml minimum) levels split found =
      elim (Bool-cases (t.ttype =s "aml" && t.status =s "ready")) [
        | inl is_ready ↦
            score_shares-holds t.score config.risk_scores levels (ground (arith, found, is_ready))
        | inr unready ↦ absurd (ground (arith, found, unready))
      ]

-- What a list of payouts is: of a deposit that is there, with the shares that the configuration has for
-- it, the exact pieces that are not paid; together with those that are, they are the amount.
pub record IsSplit (config : SplitConfig) (symbol tx_id : String) (deposits : List Deposit)
    (rows : List PaidRow) (pieces : List Share) : Type 0 where
  pub t : Deposit
  pub drain_type : DrainType
  pub shares : List Share
  pub found : find_deposit tx_id deposits ≡ some t
  pub configured : get_external_drain_type config.drain symbol ≡ ok drain_type
  pub shared : shares_of config t drain_type ≡ some shares
  pub exact : pieces ≡ unpaid (addresses_done tx_id rows) (exact_shares t.amount shares)
  pub conserved :
      total pieces + total (paid (addresses_done tx_id rows) (exact_shares t.amount shares))
      ≡ t.amount * 100

payouts_left-exact :
    (done : List String) (amount : ℕ) (shares : List Share) {pieces : List Share}
    → check_split_perc_sum shares ≡ true
    → payouts_left done amount shares ≡ some pieces
    → pieces ≡ unpaid done (exact_shares amount shares)
unfolding payouts_left
payouts_left-exact done amount shares {pieces} valid left =
    let whole : total shares ≡ 100 = ground (arith, valid) in
    let hundredfold : amount * total shares ≡ amount * 100 = ap (λ n. amount * n) whole in
    let exact = split_amount-exact amount 0 shares (omega (arith, hundredfold)) in
    elim (Bool-cases (all_done done shares)) [
      | inl finished ↦ ground (arith, left, finished)
      | inr open_shares ↦
          let same : unpaid done (split_amount amount 0 shares) ≡ pieces =
            ground (arith, left, open_shares) in
          sym same ∙ ap (unpaid done) exact
    ]

payouts_left-conserved :
    (done : List String) (amount : ℕ) (shares : List Share)
    → check_split_perc_sum shares ≡ true
    → total (unpaid done (exact_shares amount shares))
        + total (paid done (exact_shares amount shares))
      ≡ amount * 100
payouts_left-conserved done amount shares valid =
    let whole : total shares ≡ 100 = ground (arith, valid) in
    total-unpaid-paid done (exact_shares amount shares)
    ∙ (total-exact_shares amount shares ∙ ap (λ n. amount * n) whole)

module _ (config : SplitConfig) (valid : IsValid config) (symbol tx_id : String)
    (deposits : List Deposit) (rows : List PaidRow) where
  shares_left-IsSplit :
      (t : Deposit) (drain_type : DrainType) (shares : Option (List Share)) {pieces : List Share}
      → find_deposit tx_id deposits ≡ some t
      → get_external_drain_type config.drain symbol ≡ ok drain_type
      → shares_of config t drain_type ≡ shares
      → left_of (addresses_done tx_id rows) t.amount shares ≡ some pieces
      → IsSplit config symbol tx_id deposits rows pieces
  shares_left-IsSplit t drain_type none found configured shared left = absurd (ground (arith, left))
  shares_left-IsSplit t drain_type (some shares) found configured shared left =
      let check =
        shares_of-holds (λ s. check_split_perc_sum s ≡ true) config t drain_type valid.levels
          valid.split shared in
      let exact = payouts_left-exact (addresses_done tx_id rows) t.amount shares check left in
      record {
        t = t;
        drain_type = drain_type;
        shares = shares;
        found = found;
        configured = configured;
        shared = shared;
        exact = exact;
        conserved =
            ap
              (λ l.
                total l + total (paid (addresses_done tx_id rows) (exact_shares t.amount shares)))
              exact
            ∙ payouts_left-conserved (addresses_done tx_id rows) t.amount shares check;
      }

  list_for-IsSplit :
      (t : Deposit) (drain_type : Result DrainType) {pieces : List Share}
      → find_deposit tx_id deposits ≡ some t
      → get_external_drain_type config.drain symbol ≡ drain_type
      → list_for config (addresses_done tx_id rows) t drain_type ≡ ok (some pieces)
      → IsSplit config symbol tx_id deposits rows pieces
  unfolding list_for
  list_for-IsSplit t (err e) found configured listed = absurd (ground (arith, listed))
  list_for-IsSplit t (ok drain_type) found configured listed =
      shares_left-IsSplit t drain_type _ found configured refl (ground (arith, listed))

  deposit-IsSplit :
      (t : Option Deposit) {pieces : List Share}
      → find_deposit tx_id deposits ≡ t
      → elim t [
        | none ↦ ok none
        | some t ↦
            if t.ttype =s "from_fee"
            then ok none
            else list_for config
                (addresses_done tx_id rows)
                t
                (get_external_drain_type config.drain symbol)
      ]
        ≡ ok (some pieces)
      → IsSplit config symbol tx_id deposits rows pieces
  deposit-IsSplit none found listed = absurd (ground (arith, listed))
  deposit-IsSplit (some t) found listed = elim (Bool-cases (t.ttype =s "from_fee")) [
    | inl from_fee ↦ absurd (ground (arith, listed, from_fee))
    | inr other ↦ list_for-IsSplit t _ found refl (ground (arith, listed, other))
  ]

-- Where the ratios of the configuration have the sum one, a list that build_payout_list gives is for a
-- deposit that is there, and has the exact share of the amount for each address that is not paid;
-- with the shares of those that are, the list makes up the amount.
pub build_payout_list-IsSplit :
    (config : SplitConfig) (symbol tx_id : String) (deposits : List Deposit) (rows : List PaidRow)
    {pieces : List Share}
    → IsValid config
    → build_payout_list config symbol tx_id deposits rows ≡ ok (some pieces)
    → IsSplit config symbol tx_id deposits rows pieces
unfolding build_payout_list
build_payout_list-IsSplit config symbol tx_id deposits rows valid listed =
    deposit-IsSplit config valid symbol tx_id deposits rows (find_deposit tx_id deposits) refl
      listed
