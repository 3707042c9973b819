-- ===== src/Servers/Best.antt =====
-- Proofs about the choice of the best server (app/connection_manager.py).
use mathlib.Core.List.{Memᴰ}
use mathlib.Core.List.Memᴰ
use native.Mathlib.Nat.{le_trans}
use tron_shkeeper.Base.{
  ℕ, suc, ◌+◌, ◌≤◌, ◌<◌, ◌≡◌, refl, sym, ap, subst, ◌⊎◌, inl, inr, Bool, false, Option, none, some,
  List, [], ◌∷◌, ltb, ◌==◌, length, if◌then◌else◌, Bool-cases, All, arith,
}
use tron_shkeeper.Payout.Types.{Result, ok, err}
use tron_shkeeper.Servers.Choice.{
  ServerStatus, get_servers_status, Online, online_servers, max_block, first_max,
  get_best_server_id, Setting, set_best, refresh_best_server, refresh_all,
  refresh_best_server_thread_handler,
}

better :
    (best s : Online)
    → (best.1 ≤ (if ltb best.1 s.1 then s else best).1)
      × (s.1 ≤ (if ltb best.1 s.1 then s else best).1)
better best s = elim (Bool-cases (ltb best.1 s.1)) [
  | inl ahead ↦ rw ahead (ground (arith, ahead), omega arith)
  | inr behind ↦ rw behind (omega arith, ground (arith, behind))
]

max_block-member :
    (best : Online) (rest : List Online)
    → (max_block best rest ≡ best) ⊎ Memᴰ (max_block best rest) rest
unfolding max_block
max_block-member best [] = inl refl
max_block-member best (s ∷ rest) = elim (Bool-cases (ltb best.1 s.1)) [
  | inl ahead ↦ elim (max_block-member s rest) [
    | inl same ↦ rw ahead (inr (Memᴰ.head same))
    | inr later ↦ rw ahead (inr (Memᴰ.tail later))
  ]
  | inr behind ↦ elim (max_block-member best rest) [
    | inl same ↦ rw behind (inl same)
    | inr later ↦ rw behind (inr (Memᴰ.tail later))
  ]
]

max_block-best : (best : Online) (rest : List Online) → best.1 ≤ (max_block best rest).1
unfolding max_block
max_block-best best [] = omega arith
max_block-best best (s ∷ rest) =
    le_trans (better best s).0 (max_block-best (if ltb best.1 s.1 then s else best) rest)

max_block-all :
    (best : Online) (rest : List Online) (s : Online) → Memᴰ s rest → s.1 ≤ (max_block best rest).1
unfolding max_block
max_block-all best [] s m = absurd (Memᴰ.not-nil m)
max_block-all best (x ∷ rest) s m = elim (Memᴰ.cases_cons m) [
  | inl e ↦
      subst (λ y. y.1 ≤ (max_block (if ltb best.1 x.1 then x else best) rest).1) (sym e)
        (le_trans (better best x).1 (max_block-best (if ltb best.1 x.1 then x else best) rest))
  | inr later ↦ max_block-all (if ltb best.1 x.1 then x else best) rest s later
]

-- An entry of a server that is online.
abbrev pub online_status : ℕ → ℕ → ServerStatus
online_status server_id block = record { server_id = server_id; block = some block }

online_servers-member :
    (statuses : List ServerStatus) (server_id block : ℕ)
    → Memᴰ (online_status server_id block) statuses
    → Memᴰ (server_id, block) (online_servers statuses)
unfolding online_servers
online_servers-member [] server_id block m = absurd (Memᴰ.not-nil m)
online_servers-member (s ∷ rest) server_id block m = elim (Memᴰ.cases_cons m) [
  | inl e ↦ subst (λ x. Memᴰ (server_id, block) (online_servers (x ∷ rest))) e (Memᴰ.head refl)
  | inr later ↦ or_later s.block (online_servers-member rest server_id block later)
]
  where
    or_later :
        (o : Option ℕ)
        → Memᴰ (server_id, block) (online_servers rest)
        → Memᴰ
            (server_id, block)
            (elim o [
              | none ↦ online_servers rest
              | some b ↦ (s.server_id, b) ∷ online_servers rest
            ])
    or_later none m = m
    or_later (some b) m = Memᴰ.tail m

member-online_servers :
    (statuses : List ServerStatus) (server_id block : ℕ)
    → Memᴰ (server_id, block) (online_servers statuses)
    → Memᴰ (online_status server_id block) statuses
unfolding online_servers
member-online_servers [] server_id block m = absurd (Memᴰ.not-nil m)
member-online_servers (s ∷ rest) server_id block m =
    by_block (member-online_servers rest server_id block) s.block refl m
  where
    by_block :
        (Memᴰ (server_id, block) (online_servers rest) → Memᴰ (online_status server_id block) rest)
        → (o : Option ℕ) → s.block ≡ o
        → Memᴰ
            (server_id, block)
            (elim o [
              | none ↦ online_servers rest
              | some b ↦ (s.server_id, b) ∷ online_servers rest
            ])
        → Memᴰ (online_status server_id block) (s ∷ rest)
    by_block again none off m = Memᴰ.tail (again m)
    by_block again (some b) on m = elim (Memᴰ.cases_cons m) [
      | inl e ↦ Memᴰ.head (cc (on, ap (λ x. x.0) e, ap (λ x. x.1) e))
      | inr later ↦ Memᴰ.tail (again later)
    ]

get_servers_status-bounds :
    (first : ℕ) (blocks : List (Option ℕ)) (s : ServerStatus)
    → Memᴰ s (get_servers_status first blocks)
    → s.server_id < first + length blocks
unfolding get_servers_status
get_servers_status-bounds first [] s m = absurd (Memᴰ.not-nil m)
get_servers_status-bounds first (b ∷ blocks) s m = elim (Memᴰ.cases_cons m) [
  | inl e ↦ subst (λ x. x.server_id < first + suc (length blocks)) (sym e) (omega arith)
  | inr later ↦ let h = get_servers_status-bounds (first + 1) blocks s later in omega (arith, h)
]

-- A server that is online, and that no server is ahead of.
pub record IsBest (blocks : List (Option ℕ)) (server_id : ℕ) : Type 0 where
  pub block : ℕ
  pub online : Memᴰ (online_status server_id block) (get_servers_status 0 blocks)
  pub ahead :
      (other other_block : ℕ)
      → Memᴰ (online_status other other_block) (get_servers_status 0 blocks)
      → other_block ≤ block

first_max-IsBest :
    (blocks : List (Option ℕ)) (online : List Online) {server_id : ℕ}
    → online_servers (get_servers_status 0 blocks) ≡ online
    → first_max online ≡ ok server_id
    → IsBest blocks server_id
first_max-IsBest blocks [] same chosen = absurd (ground (arith, chosen))
first_max-IsBest blocks (s ∷ rest) {server_id} same chosen =
    let is_chosen : (max_block s rest).0 ≡ server_id = ground (arith, chosen) in
    subst (IsBest blocks) is_chosen (record {
      block = (max_block s rest).1;
      online =
          member-online_servers (get_servers_status 0 blocks) (max_block s rest).0
            (max_block s rest).1
            (subst (λ l. Memᴰ (max_block s rest) l) (sym same)
              (elim (max_block-member s rest) [
                | inl first ↦ Memᴰ.head first
                | inr later ↦ Memᴰ.tail later
              ]));
      ahead = λ other other_block m.
          let found = online_servers-member (get_servers_status 0 blocks) other other_block m in
          elim (Memᴰ.cases_cons (subst (λ l. Memᴰ (other, other_block) l) same found)) [
            | inl e ↦ subst (λ x. x.1 ≤ (max_block s rest).1) (sym e) (max_block-best s rest)
            | inr later ↦ max_block-all s rest (other, other_block) later
          ];
    })

-- The server that get_best_server_id chooses among several is online, and none that is online is
-- ahead of it.
pub get_best_server_id-IsBest :
    (blocks : List (Option ℕ)) (server_id : ℕ)
    → length blocks == 1 ≡ false
    → get_best_server_id blocks ≡ ok server_id
    → IsBest blocks server_id
unfolding get_best_server_id
get_best_server_id-IsBest blocks server_id several chosen =
    first_max-IsBest blocks (online_servers (get_servers_status 0 blocks)) refl
      (ground (arith, several, chosen))

get_best_server_id-bounds :
    (blocks : List (Option ℕ)) (server_id : ℕ)
    → get_best_server_id blocks ≡ ok server_id
    → server_id < length blocks
unfolding get_best_server_id
get_best_server_id-bounds blocks server_id chosen = elim (Bool-cases (length blocks == 1)) [
  | inl single ↦ ground (arith, single, chosen)
  | inr several ↦
      let best =
        first_max-IsBest blocks (online_servers (get_servers_status 0 blocks))
          {server_id = server_id} refl (ground (arith, several, chosen)) in
      let h = get_servers_status-bounds 0 blocks (online_status server_id best.block) best.online in
      omega (arith, h)
]

-- The row names one of that many servers, if it is there.
unfoldable pub IsInRange : ℕ → Setting → Type 0
IsInRange servers none = Unit
IsInRange servers (some server_id) = server_id < servers

set_best-IsInRange :
    (servers : ℕ) (best : Result ℕ) (setting : Setting)
    → ((server_id : ℕ) → best ≡ ok server_id → server_id < servers)
    → IsInRange servers setting
    → IsInRange servers (set_best best setting).1
unfolding IsInRange
set_best-IsInRange servers (err e) setting bounded h = h
set_best-IsInRange servers (ok server_id) none bounded h = tt
set_best-IsInRange servers (ok server_id) (some old) bounded h =
    elim (Bool-cases (server_id == old)) [
      | inl same ↦ rw same h
      | inr other ↦ rw other (bounded server_id refl)
    ]

best_of-bounds :
    (servers : ℕ) (blocks : List (Option ℕ))
    → length blocks ≡ servers
    → (server_id : ℕ) → get_best_server_id blocks ≡ ok server_id
    → server_id < servers
best_of-bounds servers blocks same server_id chosen =
    subst (λ n. server_id < n) same (get_best_server_id-bounds blocks server_id chosen)

refresh_all-IsInRange :
    (servers : ℕ) (rounds : List (List (Option ℕ))) (setting : Setting)
    → All (λ blocks. length blocks ≡ servers) rounds
    → IsInRange servers setting
    → IsInRange servers (refresh_all rounds setting)
unfolding refresh_all refresh_best_server
refresh_all-IsInRange servers [] setting sizes h = h
refresh_all-IsInRange servers (blocks ∷ rest) setting (size, sizes) h =
    after _ _ (set_best (get_best_server_id blocks) setting).0
      (refresh_all-IsInRange servers rest _ sizes kept) kept
  where
    kept : IsInRange servers (set_best (get_best_server_id blocks) setting).1
    kept =
        set_best-IsInRange servers (get_best_server_id blocks) setting
          (best_of-bounds servers blocks size) h

    after :
        (s s' : Setting) (r : Result Bool)
        → IsInRange servers s
        → IsInRange servers s'
        → IsInRange servers (elim r [ ok _ ↦ s | err e ↦ s' ])
    after s s' (ok b) hs hs' = hs
    after s s' (err e) hs hs' = hs'

-- Where each round has an answer for each of the servers, and the row is missing or names one of the
-- servers, it is missing or names one of the servers after the thread ran.
pub refresh_best_server_thread_handler-IsInRange :
    (servers : ℕ) (rounds : List (List (Option ℕ))) (setting : Setting)
    → All (λ blocks. length blocks ≡ servers) rounds
    → IsInRange servers setting
    → IsInRange servers (refresh_best_server_thread_handler rounds setting)
unfolding refresh_best_server_thread_handler IsInRange
refresh_best_server_thread_handler-IsInRange servers rounds (some server_id) sizes h =
    refresh_all-IsInRange servers rounds (some server_id) sizes h
refresh_best_server_thread_handler-IsInRange servers [] none sizes h = h
refresh_best_server_thread_handler-IsInRange servers (blocks ∷ rest) none (size, sizes) h =
    by_best (refresh_best_server_thread_handler-IsInRange servers rest none sizes h)
      (get_best_server_id blocks) (best_of-bounds servers blocks size)
  where
    by_best :
        IsInRange servers (refresh_best_server_thread_handler rest none)
        → (r : Result ℕ) → ((server_id : ℕ) → r ≡ ok server_id → server_id < servers)
        → IsInRange servers (elim r [
          | ok server_id ↦ refresh_all rest (some server_id)
          | err e ↦ refresh_best_server_thread_handler rest none
        ])
    by_best again (err e) bounded = again
    by_best again (ok server_id) bounded =
        refresh_all-IsInRange servers rest (some server_id) sizes (bounded server_id refl)
