-- ===== src/MarketData/Subscriptions.antt =====
-- src/MarketDataServer.cpp: the requests of market-data clients, and the end of their connections.
use electronic_exchange_simu.Prelude.{
  ℕ, ◌==◌, ◌&&◌, Bool, true, false, Option, none, some, List, [], ◌∷◌, ◌++◌, if◌then◌else◌, update,
}
use electronic_exchange_simu.MarketData.Server.{
  MdType, l1, l2, l3, MarketDataServer, get_or_create_book,
}
use electronic_exchange_simu.MarketData.Snapshots.{
  send_top_of_book, send_l2_snapshot, send_l3_snapshot,
}

pub data SubType : Type 0 where
  single_snapshot subscribe unsubscribe : SubType

pub record MarketDataRequest : Type 0 where
  pub symbol_id : ℕ
  pub md_type : MdType
  pub sub_type : SubType

abbrev pub md_type_eq : MdType → MdType → Bool
md_type_eq l1 l1 = true
md_type_eq l2 l2 = true
md_type_eq l3 l3 = true
md_type_eq _ _ = false

-- Membership, insert and erase of a set of clients.
unfoldable pub has_client : ℕ → List ℕ → Bool
has_client c [] = false
has_client c (d ∷ ds) = if d == c then true else has_client c ds

unfoldable pub insert_client : ℕ → List ℕ → List ℕ
unfolding has_client
insert_client c cs = if has_client c cs then cs else c ∷ cs

unfoldable pub erase_client : ℕ → List ℕ → List ℕ
erase_client c [] = []
erase_client c (d ∷ ds) = if d == c then ds else d ∷ erase_client c ds

abbrev pub tag_eq : MdType × ℕ → MdType × ℕ → Bool
tag_eq (t, s) (u, r) = md_type_eq t u && s == r

unfoldable pub has_tag : MdType × ℕ → List (MdType × ℕ) → Bool
has_tag t [] = false
has_tag t (u ∷ us) = if tag_eq u t then true else has_tag t us

-- `subs.erase(std::remove(...), subs.end())`
unfoldable pub remove_tag : MdType × ℕ → List (MdType × ℕ) → List (MdType × ℕ)
remove_tag t [] = []
remove_tag t (u ∷ us) = if tag_eq u t then remove_tag t us else u ∷ remove_tag t us

-- The sets of the clients of a kind, changed at one symbol.
abbrev pub set_clients : MarketDataServer → MdType → ℕ → (List ℕ → List ℕ) → MarketDataServer
set_clients s l1 k f = record s { l1_clients = update s.l1_clients k (f (s.l1_clients k)) }
set_clients s l2 k f = record s { l2_clients = update s.l2_clients k (f (s.l2_clients k)) }
set_clients s l3 k f = record s { l3_clients = update s.l3_clients k (f (s.l3_clients k)) }

abbrev pub set_subs :
    MarketDataServer → ℕ → (List (MdType × ℕ) → List (MdType × ℕ)) → MarketDataServer
set_subs s client f = record s { subs = update s.subs client (f (s.subs client)) }

abbrev pub add_tag : MdType × ℕ → List (MdType × ℕ) → List (MdType × ℕ)
add_tag t us = if has_tag t us then us else us ++ t ∷ []

unfoldable pub unsubscribe_client : MarketDataServer → ℕ → MdType → ℕ → MarketDataServer
unfolding erase_client remove_tag
unsubscribe_client s client md_type symbol_id =
    set_subs (set_clients s md_type symbol_id (erase_client client)) client
      (remove_tag (md_type, symbol_id))

abbrev pub send_snapshot : MarketDataServer → ℕ → MdType → ℕ → Option MarketDataServer
send_snapshot s0 client l1 symbol_id =
    let (b, s) = get_or_create_book s0 symbol_id in some (send_top_of_book s client symbol_id b)
send_snapshot s0 client l2 symbol_id =
    let (b, s) = get_or_create_book s0 symbol_id in some (send_l2_snapshot s client symbol_id b)
send_snapshot s0 client l3 symbol_id =
    let (b, s) = get_or_create_book s0 symbol_id in send_l3_snapshot s client symbol_id b

abbrev pub register : MarketDataServer → ℕ → MdType → ℕ → MarketDataServer
register s client md_type symbol_id =
    set_subs (set_clients s md_type symbol_id (insert_client client)) client
      (add_tag (md_type, symbol_id))

unfoldable pub subscribe_client : MarketDataServer → ℕ → MdType → ℕ → Option MarketDataServer
unfolding get_or_create_book send_top_of_book send_l2_snapshot send_l3_snapshot insert_client
    has_tag
subscribe_client s client md_type symbol_id = elim (send_snapshot s client md_type symbol_id) [
  | none ↦ none
  | some s1 ↦ some (register s1 client md_type symbol_id)
]

-- A single snapshot is in the protocol and not in the code.
unfoldable pub handle_market_data_request :
    MarketDataServer → ℕ → MarketDataRequest → Option MarketDataServer
unfolding unsubscribe_client subscribe_client
handle_market_data_request s client req = elim req.sub_type [
  | unsubscribe ↦ some (unsubscribe_client s client req.md_type req.symbol_id)
  | subscribe ↦ subscribe_client s client req.md_type req.symbol_id
  | single_snapshot ↦ some s
]

-- One round of the loop of the close handler.
abbrev pub drop_tag : MarketDataServer → ℕ → MdType × ℕ → MarketDataServer
drop_tag s client (l1, k) = s
drop_tag s client (l2, k) = set_clients s l2 k (erase_client client)
drop_tag s client (l3, k) = set_clients s l3 k (erase_client client)

unfoldable pub drop_tags : MarketDataServer → ℕ → List (MdType × ℕ) → MarketDataServer
unfolding erase_client
drop_tags s client [] = s
drop_tags s client (t ∷ ts) = drop_tags (drop_tag s client t) client ts

unfoldable pub on_close : MarketDataServer → ℕ → MarketDataServer
unfolding drop_tags
on_close s client = set_subs (drop_tags s client (s.subs client)) client (λ ts. [])
