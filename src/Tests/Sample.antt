-- ===== src/Tests/Sample.antt =====
-- A database with two users: one with 5.00 accrued, a planned withdrawal and a planned accrual, and
-- one without an account.
use sufirmart.Base.{
  inl, inr, Bool-cases, refl, false, [], ◌∷◌, Str, str_eq, bytes, pos, ◌-ℤ◌, ◌+ℤ◌, arith,
}
use sufirmart.Domain.Order.{OrderStatus}
use sufirmart.Domain.Status.{TransactionStatus}
use sufirmart.Store.{UserRow, OrderRow, TransactionRow, AccountRow}
use sufirmart.Store.Table.{find, select}
use sufirmart.Store.Statement.{Env, World, IsUp}
use sufirmart.Account.Rows.{sum_net}
use sufirmart.Account.Ledger.{IsLedger}

abbrev pub calm : Env
calm = record { fails = λ _. false; now = λ n. n; uuid = λ n. bytes "fresh" }

pub calm-IsUp : IsUp calm
calm-IsUp n = refl

abbrev pub ann : Str
ann = bytes "01234567-89ab-7cde-8f01-23456789abcd"

abbrev pub bob : Str
bob = bytes "01234567-89ab-7cde-9f01-23456789abcd"

abbrev pub number : Str
number = bytes "79927398713"

abbrev pub accrued : TransactionRow
accrued = record {
  id = bytes "a";
  user_id = ann;
  order_num = bytes "18";
  accrual = pos 500;
  withdraw = pos 0;
  status = TransactionStatus.processed;
  comment = [];
  processed_at = 1;
}

abbrev pub spending : TransactionRow
spending = record {
  id = bytes "w";
  user_id = ann;
  order_num = bytes "26";
  accrual = pos 0;
  withdraw = pos 300;
  status = TransactionStatus.planned;
  comment = [];
  processed_at = 2;
}

abbrev pub bonus : TransactionRow
bonus = record {
  id = bytes "b";
  user_id = ann;
  order_num = number;
  accrual = pos 0;
  withdraw = pos 0;
  status = TransactionStatus.planned;
  comment = [];
  processed_at = 3;
}

abbrev pub ann_row : UserRow
ann_row = record { id = ann; login = bytes "ann"; password = [] }

abbrev pub bob_row : UserRow
bob_row = record { id = bob; login = bytes "bob"; password = [] }

abbrev pub ann_account : AccountRow
ann_account = record { user_id = ann; current_balance = pos 500 }

abbrev pub order_row : OrderRow
order_row = record { user_id = ann; order_num = number; status = OrderStatus.new; uploaded_at = 3 }

abbrev pub world : World
world = record {
  db = record {
    users = ann_row ∷ bob_row ∷ [];
    auths = [];
    orders = order_row ∷ [];
    transactions = accrued ∷ spending ∷ bonus ∷ [];
    accounts = ann_account ∷ [];
  };
  calls = 0;
}

pub world-IsLedger : IsLedger world.db
unfolding find select sum_net ◌-ℤ◌ ◌+ℤ◌
world-IsLedger = record {
  rows = ((omega arith, λ e. cc), ((omega arith, λ _. refl), ((omega arith, λ _. refl), tt)));
  balanced =
      λ v. elim (Bool-cases (str_eq ann v)) [ inl same ↦ rw same refl | inr other ↦ rw other refl ];
  solvent = λ v. elim (Bool-cases (str_eq ann v)) [
    | inl same ↦ rw same (omega arith)
    | inr other ↦ rw other (omega arith)
  ];
}
