-- ===== src/Accounts/ClientDatabase.antt =====
-- include/database/InMemoryClientDatabase.hpp, with the classes of executions of include/define.hpp.
use electronic_exchange_simu.Prelude.{
  ℕ, Bool, true, false, Option, none, some, List, [], ◌∷◌, ◌++◌, if◌then◌else◌, update, add64,
}
use electronic_exchange_simu.Prelude.Int.{ℤ, pos, ◌+ℤ◌, ◌-ℤ◌, ◌*ℤ◌}
use electronic_exchange_simu.Wire.{
  Side, buy, ExecType, exec_new, partial_fill, fill, cancelled, replaced, OrderResponse,
}
use electronic_exchange_simu.Accounts.ClientAccount.{int_or_0, to_int64}

-- `check_exec(type, EXEC_TRADE)`, and so on for the other classes.
abbrev pub is_trade : ExecType → Bool
is_trade fill = true
is_trade partial_fill = true
is_trade _ = false

abbrev pub is_alive : ExecType → Bool
is_alive exec_new = true
is_alive replaced = true
is_alive partial_fill = true
is_alive _ = false

abbrev pub is_ann : ExecType → Bool
is_ann fill = true
is_ann cancelled = true
is_ann _ = false

-- The maps by client: `log_offsets` holds the entries of a client in the order in which they come,
-- which is that of their sequence numbers.
pub record ClientDatabase : Type 0 where
  pub i_seq_nums : ℕ → ℕ
  pub o_seq_nums : ℕ → ℕ
  pub log_offsets : ℕ → List (ℕ × ℕ)
  pub positions : ℕ → Option (ℕ → Option ℤ)
  pub open_orders : ℕ → ℕ → Option OrderResponse
  pub last_log_offset : ℕ

unfoldable pub set_client_i_seq_num : ClientDatabase → ℕ → ℕ → ClientDatabase
set_client_i_seq_num d client_id seq_num = record d {
  i_seq_nums = update d.i_seq_nums client_id seq_num;
}

unfoldable pub set_client_o_seq_num : ClientDatabase → ℕ → ℕ → ClientDatabase
set_client_o_seq_num d client_id seq_num = record d {
  o_seq_nums = update d.o_seq_nums client_id seq_num;
}

unfoldable pub increment_and_get_client_o_seq_num : ClientDatabase → ℕ → ℕ × ClientDatabase
increment_and_get_client_o_seq_num d client_id =
    let n = add64 (d.o_seq_nums client_id) 1 in
    (n, record d { o_seq_nums = update d.o_seq_nums client_id n })

-- The positions that a client starts with.
abbrev pub new_positions : ℕ → Option ℤ
new_positions = update (update (λ id. none) 0 (some (pos 1_000_000))) 1 (some (pos 0))

abbrev pub positions_or_new : Option (ℕ → Option ℤ) → ℕ → Option ℤ
positions_or_new none = new_positions
positions_or_new (some f) = f

unfoldable pub get_or_create_client_positions : ClientDatabase → ℕ → ℕ → Option ℤ
get_or_create_client_positions d client_id = positions_or_new (d.positions client_id)

unfoldable pub get_position_db : ClientDatabase → ℕ → ℕ → ℤ
unfolding get_or_create_client_positions
get_position_db d client_id symbol_id =
    int_or_0 (get_or_create_client_positions d client_id symbol_id)

-- `client_pos[symbol_id] += delta`
abbrev pub add_to : (ℕ → Option ℤ) → ℕ → ℤ → ℕ → Option ℤ
add_to f symbol_id delta = update f symbol_id (some (int_or_0 (f symbol_id) +ℤ delta))

-- asset_delta and cash_delta.
abbrev pub asset_delta : Side → ℕ → ℤ
asset_delta buy q = to_int64 q
asset_delta _ q = pos 0 -ℤ to_int64 q

abbrev pub cash_delta : Side → ℤ → ℤ
cash_delta buy cost = pos 0 -ℤ cost
cash_delta _ cost = cost

-- What a trade does to the positions of its client. The source multiplies in uint64_t
-- and casts to int64_t, which is the product of p and the quantity as an int64_t where that fits.
unfoldable pub book_trade : ClientDatabase → OrderResponse → ClientDatabase
unfolding get_or_create_client_positions
book_trade d r =
    let f = get_or_create_client_positions d r.client_id in
    let g = add_to f r.symbol_id (asset_delta r.side r.q) in
    record d {
      positions =
          update d.positions r.client_id
            (some (add_to g 0 (cash_delta r.side (r.p *ℤ to_int64 r.q))));
    }

abbrev pub set_open : ClientDatabase → OrderResponse → Option OrderResponse → ClientDatabase
set_open d r o = record d {
  open_orders = update d.open_orders r.client_id (update (d.open_orders r.client_id) r.order_id o);
}

-- The open orders, by the kind of the execution.
unfoldable pub book_order : ClientDatabase → OrderResponse → ExecType → ClientDatabase
book_order d r partial_fill = elim (d.open_orders r.client_id r.order_id) [
  | none ↦ d
  | some o ↦ set_open d r (some (record o { q_rem = r.q_rem }))
]
book_order d r type =
    if is_alive type then set_open d r (some r) else if is_ann type then set_open d r none else d

unfoldable pub update_on_execution : ClientDatabase → OrderResponse → ℕ → ClientDatabase
unfolding book_trade book_order increment_and_get_client_o_seq_num
update_on_execution d r log_offset =
    let (msg_seq_num, d1) = increment_and_get_client_o_seq_num d r.client_id in
    let d2 = if is_trade r.exec_type then book_trade d1 r else d1 in
    let d3 = book_order d2 r r.exec_type in
    record d3 {
      log_offsets =
          update d3.log_offsets r.client_id
            (d3.log_offsets r.client_id ++ (msg_seq_num, log_offset) ∷ []);
      last_log_offset = log_offset;
    }
