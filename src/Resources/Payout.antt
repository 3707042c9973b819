-- ===== src/Resources/Payout.antt =====
-- The resources of a payout (app/payout_resources.py): the quote for the fee-deposit wallet, with a
-- check of the destination where the estimate did not make one, and providing them. `get_key` gives
-- the address of that wallet; `ensure_destination_activated` is a parameter. The two dataclasses of
-- the file have the fields of those that they copy, so one record models both.
use tron_shkeeper.Base.{ℕ, String, Bool, true, false, Option, none, some, not, ◌&&◌, ◌||◌, ◌=s◌}
use tron_shkeeper.Payout.Types.{Exc, Result, ok, err}
use tron_shkeeper.Resources.Types.{Quote, Tools, M, resource_error, pure, raise, ◌>>=◌, ◌>>◌, ask}
use tron_shkeeper.Resources.Estimate.{estimate_usdt_transfer_resources}
use tron_shkeeper.Resources.Provision.{
  is_temporary_blocking_code, or_default, ensure_usdt_transfer_resources,
}

abbrev pub is_some_text : Option String → String → Bool
is_some_text none t = false
is_some_text (some s) t = s =s t

-- `_blocked_quote`
unfoldable pub blocked_quote : Quote → String → String → Bool → Quote
blocked_quote quote code reason activation_required = record quote {
  activation_required = activation_required;
  submit_ready = false;
  blocking_code = some code;
  blocking_reason = some reason;
}

-- The quote, given what `_destination_is_active` found.
unfoldable pub with_activation : Quote → Option Bool → Quote
unfolding blocked_quote
with_activation quote (some true) = quote
with_activation quote (some false) =
    blocked_quote quote "DESTINATION_NOT_ACTIVATED" "TRON payout destination is not activated" true
with_activation quote none =
    blocked_quote quote "RESOURCE_READ_FAILED"
      "Unable to read TRON payout destination account activation status" quote.activation_required

-- What `_raise_from_quote` raises.
unfoldable pub payout_quote_error : Quote → Exc
unfolding is_temporary_blocking_code
payout_quote_error quote =
    resource_error (or_default "TRON USDT payout resources are not ready" quote.blocking_reason)
      quote.blocking_code (is_temporary_blocking_code quote.blocking_code) false

module _ {W : Type 0} (tools : Tools W) (fee_deposit_address : String) (is_address : String → Bool)
    (activate : String → Option String → W → Result (Unit {0}) × W) where
  -- `_quote_with_refee_activation_check`
  unfoldable pub quote_with_refee_activation_check : Quote → M W Quote
  unfolding pure ◌>>=◌ ask with_activation
  quote_with_refee_activation_check quote =
      elim (not (is_some_text quote.estimate_provider "refee") || quote.activation_required) [
        | true ↦ pure quote
        | false ↦ ask (tools.get_account quote.destination) >>= λ active.
            pure (with_activation quote active)
      ]

  -- `estimate_fee_deposit_resources_for_usdt_payout`; the exceptions keep their attributes
  unfoldable pub estimate_fee_deposit_resources_for_usdt_payout : String → ℕ → M W Quote
  unfolding raise ◌>>=◌ estimate_usdt_transfer_resources quote_with_refee_activation_check
  estimate_fee_deposit_resources_for_usdt_payout destination amount =
      elim (is_address destination) [
        | false ↦ raise (resource_error "bad address" none false false)
        | true ↦
            estimate_usdt_transfer_resources tools fee_deposit_address destination amount
            >>= λ quote. quote_with_refee_activation_check quote
      ]

  -- The condition under which the destination is activated.
  abbrev pub may_activate : Bool → Quote → Bool
  may_activate allow quote =
      not quote.submit_ready
      && is_some_text quote.blocking_code "DESTINATION_NOT_ACTIVATED"
      && allow
      && tools.config.auto_activate_destination

  unfoldable pub activate_destination : String → Quote → M W (Unit {0})
  unfolding pure raise ◌>>=◌ ask
  activate_destination destination quote =
      ask (activate destination quote.estimate_provider) >>= λ answer. elim answer [
        | ok u ↦ pure tt
        | err e ↦ raise e
      ]

  -- What comes before the resources are provided: an activation, or the end for a quote that is not
  -- ready.
  unfoldable pub prepare : Bool → String → Quote → M W (Unit {0})
  unfolding pure raise activate_destination
  prepare allow destination quote = elim (may_activate allow quote) [
    | true ↦ activate_destination destination quote
    | false ↦ elim quote.submit_ready [ true ↦ pure tt | false ↦ raise (payout_quote_error quote) ]
  ]

  -- `ensure_fee_deposit_resources_for_usdt_payout`
  unfoldable pub ensure_fee_deposit_resources_for_usdt_payout : Bool → String → ℕ → M W Quote
  unfolding ◌>>=◌ ◌>>◌ prepare estimate_fee_deposit_resources_for_usdt_payout
      ensure_usdt_transfer_resources
  ensure_fee_deposit_resources_for_usdt_payout allow destination amount =
      estimate_fee_deposit_resources_for_usdt_payout destination amount >>= λ quote.
      prepare allow destination quote
      >> ensure_usdt_transfer_resources tools quote.source_address destination amount
