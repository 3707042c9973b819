-- ===== src/Aml/Tests.antt =====
-- A deposit that is split over two addresses, and the theorems at it (app/custom/aml).
use mathlib.Core.List.Memᴰ
use tron_shkeeper.Base.{
  ◌≡◌, refl, true, false, some, List, [], ◌∷◌, ◌=s◌, subst, sym, inl, inr, if◌then◌else◌,
}
use tron_shkeeper.Payout.Types.{ok, err, plain_error}
use tron_shkeeper.Aml.Split.{
  RiskLevel, SplitConfig, Deposit, check_split_perc_sum, total, build_payout_list,
}
use tron_shkeeper.Aml.Payouts.{Books, Bank, sent, failed, run_payouts}
use tron_shkeeper.Aml.Exact.{IsValid, IsSplit, build_payout_list-IsSplit}
use tron_shkeeper.Aml.Counts.{times}

abbrev level : RiskLevel
level = record { min_value = 0; max_value = 100_000; addresses = ("TA", 30) ∷ ("TB", 70) ∷ [] }

abbrev config : SplitConfig
config = record {
  drain = record {
    aml_enabled = true;
    aml_cryptos = ("TRX", 1_000_000) ∷ [];
    regular_enabled = false;
    regular_cryptos = "TRX" ∷ [];
  };
  risk_scores = level ∷ [];
  regular_split = ("TA", 100) ∷ [];
}

abbrev deposits : List Deposit
deposits =
    record {
      tx_id = "t1";
      ttype = "aml";
      status = "ready";
      score = some 20_000;
      amount = 1_000_001;
    }
    ∷ []

-- A wallet that sends, one that fails at the second address, and one whose transfers go out before the
-- process stops.
abbrev good_bank : Bank
good_bank = record {
  balance = ok 200_000_000;
  threshold = 100;
  bandwidth_cost = 27_000;
  provide_fee = λ n. ok true;
  transfer = λ b address piece cost. sent "x" "success";
  commit = λ b. ok tt;
}

abbrev stopped_bank : Bank
stopped_bank = record good_bank { commit = λ b. err (plain_error "stopped") }

abbrev start : Books
start = record { rows = []; transfers = []; lost = [] }

abbrev bad_bank : Bank
bad_bank = record good_bank {
  transfer = λ b address piece cost.
      if address =s "TB" then failed (plain_error "no node") else sent "x" "success";
}

list-built :
    build_payout_list config "TRX" "t1" deposits []
    ≡ ok (some (("TA", 30_000_030) ∷ ("TB", 70_000_070) ∷ []))
unfolding build_payout_list
list-built = refl

level-sum : check_split_perc_sum level.addresses ≡ true
unfolding total
level-sum = refl

config-IsValid : IsValid config
unfolding total
config-IsValid = record {
  levels = λ l m. elim (Memᴰ.cases_cons m) [
    | inl e ↦ subst (λ l. check_split_perc_sum l.addresses ≡ true) (sym e) level-sum
    | inr later ↦ absurd (Memᴰ.not-nil later)
  ];
  split = refl;
}

-- After the first run stops at the second address, the second run pays it.
paid-after_failure :
    times "t1" "TA"
      (run_payouts config deposits "TRX" "t1" (bad_bank ∷ good_bank ∷ []) start).transfers
    ≡ 1
unfolding run_payouts times
paid-after_failure = refl

build_payout_list-IsSplit_example :
    IsSplit config "TRX" "t1" deposits [] (("TA", 30_000_030) ∷ ("TB", 70_000_070) ∷ [])
build_payout_list-IsSplit_example =
    build_payout_list-IsSplit config "TRX" "t1" deposits [] config-IsValid list-built

-- A transfer whose row was not written is sent again.
sent-twice :
    times "t1" "TA"
      (run_payouts config deposits "TRX" "t1" (stopped_bank ∷ good_bank ∷ []) start).transfers
    ≡ 2
unfolding run_payouts times
sent-twice = refl
