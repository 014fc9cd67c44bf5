-- ===== src/Wire.antt =====
-- The messages of fbs/exchange.fbs that the order book reads and writes: the enumerations, the
-- order request and the order response. An unsigned field is a natural number.
use electronic_exchange_simu.Prelude.{ℕ, Bool, true, false}
use electronic_exchange_simu.Prelude.Int.{ℤ}

-- `Side_None` marks a market-data frame that clears a book.
pub data Side : Type 0 where
  buy sell no_side : Side

pub data OrderType : Type 0 where
  limit market ioc fok : OrderType

pub data OrderAction : Type 0 where
  new cancel modify : OrderAction
  -- a byte outside the enumeration
  other_action : ℕ → OrderAction

pub data RejectCode : Type 0 where
  no_reject price_invalid invalid_quantity order_not_found invalid_action : RejectCode
  invalid_modify duplicate_order_id invalid_sequence_number : RejectCode
  login_at_other_session unknown_reject : RejectCode

pub data ExecType : Type 0 where
  exec_new partial_fill fill rejected cancelled replaced order_status complete : ExecType

pub record OrderRequest : Type 0 where
  pub action : OrderAction
  pub exec_id : ℕ
  pub order_id : ℕ
  pub client_id : ℕ
  pub symbol_id : ℕ
  pub side : Side
  pub type : OrderType
  pub p : ℤ
  pub q : ℕ
  pub timestamp : ℕ

pub record OrderResponse : Type 0 where
  pub exec_type : ExecType
  pub order_id : ℕ
  pub client_id : ℕ
  pub exec_id : ℕ
  pub symbol_id : ℕ
  pub side : Side
  pub p : ℤ
  pub q : ℕ
  pub q_rem : ℕ
  pub reject_code : RejectCode

-- The comparisons `==` of the enumerations.
abbrev pub side_eq : Side → Side → Bool
side_eq buy buy = true
side_eq sell sell = true
side_eq no_side no_side = true
side_eq _ _ = false

abbrev pub is_market : OrderType → Bool
is_market market = true
is_market _ = false

abbrev pub is_limit : OrderType → Bool
is_limit limit = true
is_limit _ = false
