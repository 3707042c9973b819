-- ===== src/Profeex/Activate.antt =====
-- `activate_address` and `wait_for_activation` of ProfeeX (app/resource_providers/profeex.py): the
-- order that activates an address.
use tron_shkeeper.Base.{
  contains, ◌∙◌, ◌∷◌, String, Bool, true, false, Option, none, some, ◌≡◌, refl, sym, ◌==◌, ◌=s◌,
  Bool-cases, inl, inr, if◌then◌else◌,
}
use tron_shkeeper.Payout.Types.{Exc, ok}
use tron_shkeeper.Effect.{pure, ◌>>=◌, ◌>>◌, modify}
use tron_shkeeper.Effect.Contracts.{
  returns, Contract, Contract-pure, Contract-if, Contract-bind, Contract-then, Contract-modify,
}
use tron_shkeeper.Profeex.Failures.{
  fallback_eligible_profeex_codes, non_fallback_profeex_codes, ProviderFailure,
  classify_profeex_failure, Body, Response, Reply, response, failed, Entry, text, missing, other,
  nested, request_exception_code, error_code_from_payload, status_failure_code,
  activation_error_is_temporary, activation_public_error_code,
}
use tron_shkeeper.Profeex.Client.{
  Settings, activation, Outside, Provider, P, set_last_failure, set_failure, purchase,
}
use tron_shkeeper.Profeex.Orders.{
  activation_statuses, Waited, extract_task_id, with_status, wait_for_status,
}
use tron_shkeeper.Profeex.Accepted.{was_accepted}

-- `ProfeeXOrderError`
pub record OrderError : Type 0 where
  pub error_code : String
  pub temporary : Bool
  pub provider_failure : ProviderFailure

-- What is returned, or raised.
pub data Activation : Type 0 where
  accepted : Body → Activation
  rejected : OrderError → Activation

-- An error whose failure is noted, too.
abbrev pub noted_error : {W : Type 0} → String → Bool → ProviderFailure → P W Activation
noted_error error_code temporary failure =
    set_last_failure (some failure)
    >> pure (
        rejected
          (record { error_code = error_code; temporary = temporary; provider_failure = failure }))

-- The error code of an answer that refuses.
abbrev refusal_code : Response → String
refusal_code r = elim (error_code_from_payload r.body) [
  | none ↦ status_failure_code r.status_code
  | some code ↦ code
]

module _ {W : Type 0} where
  -- What an accepted activation gives; one without a task cannot be followed.
  unfoldable pub accept_activation : Option Body → P W Activation
  unfolding pure modify ◌>>=◌ ◌>>◌ extract_task_id
  accept_activation none =
      noted_error "ACCEPTED_ORDER_WITHOUT_TASK_ID" true
        (classify_profeex_failure "ACCEPTED_ORDER_WITHOUT_TASK_ID" none true)
  accept_activation (some order) = extract_task_id order >>= λ task_id. elim task_id [
    | none ↦ pure (
        rejected (record {
          error_code = "ACCEPTED_ORDER_WITHOUT_TASK_ID";
          temporary = true;
          provider_failure = classify_profeex_failure "ACCEPTED_ORDER_WITHOUT_TASK_ID" none true;
        }))
    | some id ↦ set_last_failure none >> pure (accepted (with_status order))
  ]

  -- What the reply to an activation gives. A duplicate is not noted.
  unfoldable pub judge_activation : Reply → P W Activation
  unfolding pure modify ◌>>◌ request_exception_code error_code_from_payload status_failure_code
      activation_error_is_temporary activation_public_error_code accept_activation
  judge_activation (failed e) =
      noted_error "SERVICE_UNAVAILABLE" true
        (classify_profeex_failure (request_exception_code e) none false)
  judge_activation (response r) =
      if r.status_code == 202
      then accept_activation r.body
      else if r.status_code == 409
      then pure (
          rejected (record {
            error_code = "DUPLICATE_REQUEST";
            temporary = true;
            provider_failure = classify_profeex_failure "DUPLICATE_REQUEST" none false;
          }))
      else if r.status_code == 503
      then noted_error "SERVICE_UNAVAILABLE" true
          (classify_profeex_failure "SERVICE_UNAVAILABLE" none false)
      else noted_error (activation_public_error_code r.status_code r.body (refusal_code r))
          (activation_error_is_temporary r.status_code (refusal_code r))
          (classify_profeex_failure (refusal_code r) none false)

module _ {W : Type 0} (o : Outside W) where
  -- `activate_address`
  unfoldable pub activate_address : String → P W Activation
  unfolding pure modify ◌>>=◌ ◌>>◌ purchase judge_activation
  activate_address receiver = set_last_failure none >>= λ _. elim (o.settings) [
    | none ↦
        noted_error "CONFIGURATION_ERROR" false
          (classify_profeex_failure "CONFIGURATION_ERROR" none false)
    | some settings ↦ purchase o (activation receiver settings.currency) >>= judge_activation
  ]

  -- `wait_for_activation`
  unfoldable pub wait_for_activation : Settings → String → Body → P W Waited
  unfolding wait_for_status
  wait_for_activation settings task_id order =
      wait_for_status o settings activation_statuses task_id order

-- An error says that an order was accepted exactly where the reply accepts one.
unfoldable pub IsTold : Reply → Activation → Type 0
IsTold reply (accepted order) = was_accepted reply ≡ true
IsTold reply (rejected e) = e.provider_failure.order_accepted ≡ was_accepted reply

classify_profeex_failure-order_accepted :
    (code : String) (task_id : Option String) (order_accepted : Bool)
    → (classify_profeex_failure code task_id order_accepted).order_accepted ≡ order_accepted
unfolding classify_profeex_failure
classify_profeex_failure-order_accepted code task_id true = refl
classify_profeex_failure-order_accepted code task_id false =
    elim (Bool-cases (contains code fallback_eligible_profeex_codes)) [
      | inl eligible ↦ rw eligible refl
      | inr other_code ↦ elim (Bool-cases (code =s "RESOURCE_READ_FAILED")) [
        | inl unread ↦ rw (other_code, unread) refl
        | inr read ↦ elim (Bool-cases (contains code non_fallback_profeex_codes)) [
          | inl fatal ↦ rw (other_code, read, fatal) refl
          | inr unknown ↦ rw (other_code, read, unknown) refl
        ]
      ]
    ]

module _ {W : Type 0} {E : Exc → Provider W → Type 0} {Q : Provider W → Type 0} where
  extracted-IsTold :
      (r : Response) (order : Body) (task_id : Option String)
      → r.status_code == 202 ≡ true
      → Contract Q
          (elim task_id [
            | none ↦ pure (
                rejected (record {
                  error_code = "ACCEPTED_ORDER_WITHOUT_TASK_ID";
                  temporary = true;
                  provider_failure =
                      classify_profeex_failure "ACCEPTED_ORDER_WITHOUT_TASK_ID" none true;
                }))
            | some id ↦ set_last_failure none >> pure (accepted (with_status order))
          ])
          (λ a _. IsTold (response r) a)
          E
  unfolding IsTold
  extracted-IsTold r order none yes_202 =
      Contract-pure _ (λ p h. classify_profeex_failure-order_accepted _ none true ∙ sym yes_202)
  extracted-IsTold r order (some id) yes_202 =
      Contract-then {Q = λ _. Unit {0}} _ _ (Contract-modify _ (λ p h. tt))
        (Contract-pure _ (λ p h. yes_202))

duplicate-IsTold :
    (reply : Reply)
    → was_accepted reply ≡ false
    → (classify_profeex_failure "DUPLICATE_REQUEST" none false).order_accepted ≡ was_accepted reply
duplicate-IsTold reply refused =
    classify_profeex_failure-order_accepted "DUPLICATE_REQUEST" none false ∙ sym refused

module _ {W : Type 0} {E : Exc → Provider W → Type 0} {Q : Provider W → Type 0} where
  noted_error-IsTold :
      (reply : Reply) (error_code : String) (temporary : Bool) (code : String)
      (order_accepted : Bool)
      → order_accepted ≡ was_accepted reply
      → Contract Q
          (noted_error error_code temporary (classify_profeex_failure code none order_accepted))
          (λ a _. IsTold reply a)
          E
  unfolding IsTold
  noted_error-IsTold reply error_code temporary code order_accepted same =
      Contract-then {Q = λ _. Unit {0}} _ _ (Contract-modify _ (λ p h. tt)) (
        Contract-pure _
          (λ p h. classify_profeex_failure-order_accepted code none order_accepted ∙ same))

  extract_task_id-any : (order : Body) → Contract Q (extract_task_id order) (λ _ _. Unit {0}) E
  unfolding extract_task_id
  extract_task_id-any order = by_entry order.task_id
    where
      lost :
          Contract {A = Option String} Q
            (set_failure "ACCEPTED_ORDER_WITHOUT_TASK_ID" none true >> pure none)
            (λ _ _. Unit {0})
            E
      lost =
          Contract-then {Q = λ _. Unit {0}} _ _ (Contract-modify _ (λ p h. tt))
            (Contract-pure none (λ p h. tt))

      by_entry :
          (entry : Entry)
          → Contract {A = Option String} Q
              (elim entry [
                | text task_id ↦
                    if task_id =s ""
                    then set_failure "ACCEPTED_ORDER_WITHOUT_TASK_ID" none true >> pure none
                    else pure (some task_id)
                | _ ↦ set_failure "ACCEPTED_ORDER_WITHOUT_TASK_ID" none true >> pure none
              ])
              (λ _ _. Unit {0})
              E
      by_entry missing = lost
      by_entry other = lost
      by_entry nested = lost
      by_entry (text task_id) =
          Contract-if (task_id =s "") _ _ (λ _. lost)
            (λ _. Contract-pure (some task_id) (λ p h. tt))

  accept_activation-IsTold :
      (r : Response) (body : Option Body)
      → r.status_code == 202 ≡ true
      → Contract Q (accept_activation body) (λ a _. IsTold (response r) a) E
  unfolding accept_activation
  accept_activation-IsTold r none yes_202 = noted_error-IsTold (response r) _ _ _ true (sym yes_202)
  accept_activation-IsTold r (some order) yes_202 =
      Contract-bind _ _ (extract_task_id-any order) (λ t. extracted-IsTold r order t yes_202)

  judge_activation-IsTold :
      (reply : Reply) → Contract Q (judge_activation reply) (λ a _. IsTold reply a) E
  unfolding judge_activation IsTold
  judge_activation-IsTold (failed e) = noted_error-IsTold (failed e) _ _ _ false refl
  judge_activation-IsTold (response r) =
      Contract-if (r.status_code == 202) _ _ (λ yes_202. accept_activation-IsTold r r.body yes_202)
        (λ not_202.
          Contract-if (r.status_code == 409) _ _
            (λ _. Contract-pure _ (λ p h. duplicate-IsTold (response r) not_202))
            (λ _.
              Contract-if (r.status_code == 503) _ _
                (λ _. noted_error-IsTold (response r) _ _ _ false (sym not_202))
                (λ _. noted_error-IsTold (response r) _ _ _ false (sym not_202))))

-- With settings, `activate_address` returns, or raises an error, and says then that an order was
-- accepted exactly where the reply to its one request accepts one.
pub activate_address-IsTold :
    {W : Type 0} (o : Outside W) (receiver : String) (settings : Settings) (p : Provider W)
    → o.settings ≡ some settings
    → (a : Activation) × (((activate_address o receiver p).0 ≡ ok a)
        × IsTold (o.buy (activation receiver settings.currency) p.outside).0 a)
unfolding activate_address purchase
activate_address-IsTold {W} o receiver settings p configured = rw configured (
    returns (λ a _. IsTold (o.buy (activation receiver settings.currency) p.outside).0 a) _ _
      ((judge_activation-IsTold {E = λ _ _. ⊥} {Q = λ _. Unit {0}}
          (o.buy (activation receiver settings.currency) p.outside).0).at
        (record {
          last_failure = none;
          outside = (o.buy (activation receiver settings.currency) p.outside).1;
          purchases =
              (
                activation receiver settings.currency,
                (o.buy (activation receiver settings.currency) p.outside).0,
              )
              ∷ p.purchases;
        })
        tt))
