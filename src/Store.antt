-- ===== src/Store.antt =====
-- The database: the tables of migrations/*.sql, and how a statement of the code runs on them.
pub mod Table
pub mod Sort
pub mod Kept
pub mod Statement
pub mod Triple
use sufirmart.Base.{ℕ, Str, List, []}
use sufirmart.Domain.Amount.{Numeric}
use sufirmart.Domain.Order.{OrderStatus}
use sufirmart.Domain.Status.{TransactionStatus}

pub record UserRow : Type 0 where
  pub id : Str
  pub login : Str
  pub password : Str

pub record AuthRow : Type 0 where
  pub user_id : Str
  pub token : Str
  pub expired_at : ℕ

pub record OrderRow : Type 0 where
  pub user_id : Str
  pub order_num : Str
  pub status : OrderStatus
  pub uploaded_at : ℕ

pub record TransactionRow : Type 0 where
  pub id : Str
  pub user_id : Str
  pub order_num : Str
  pub accrual : Numeric
  pub withdraw : Numeric
  pub status : TransactionStatus
  pub comment : Str
  pub processed_at : ℕ

pub record AccountRow : Type 0 where
  pub user_id : Str
  pub current_balance : Numeric

pub record Db : Type 0 where
  pub users : List UserRow
  pub auths : List AuthRow
  pub orders : List OrderRow
  pub transactions : List TransactionRow
  pub accounts : List AccountRow

abbrev pub empty_db : Db
empty_db = record { users = []; auths = []; orders = []; transactions = []; accounts = [] }
