-- ===== src/Domain/Status.antt =====
-- The statuses of internal/domain/accrual.go and internal/domain/transaction_status.go.

-- TransactionStatus: 0, 1 and -1 in the database.
pub data TransactionStatus : Type 0 where
  planned processed canceled : TransactionStatus

-- AccrualStatus.
pub data AccrualStatus : Type 0 where
  unspecified registered processing invalid processed : AccrualStatus
