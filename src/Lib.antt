-- ===== src/Lib.antt =====
-- The loyalty service gophermart (module sufirmart): users upload order numbers, an outside accrual
-- service says what an order is worth, and what was accrued is spent by withdrawals.
--
-- How the parts work together. A request passes the middlewares of internal/middleware, which unpack
-- and pack bodies, log the answer, and put the user behind the Authorization header into the request's
-- context; internal/api routes it to a handler of internal/api/handler, which calls a repository of
-- internal/repository. The upload handler hands a new order number to the processor of
-- internal/order, which queues a task on the pool of internal/tools/workerpool. The task takes the
-- order, plans a transaction, asks the accrual service of internal/accrual again and again by the
-- repeater of internal/tools/repeater, and ends in an order that is processed or invalid and a
-- transaction that is approved or canceled. A withdrawal registers a transaction and approves it at
-- once. cmd/gophermart/main.go has orders that are left pending queued again at intervals.
--
-- Which file models which part:
--   Base        errors as values, computations on a state, Go strings as lists of bytes, integers
--   Luhn        internal/security/order_validtion.go, internal/domain/order_number.go
--   Domain      internal/domain: statuses, orders, balances, user ids; amounts
--   Store       migrations: the tables; statements and transactions of database/sql, and rules for
--               what they keep
--   Account     internal/repository/account.go, one function per method
--   Orders      internal/repository/order.go and order_builder.go, one function per method
--   Tools       internal/tools: Repeat with its fixed strategy, WrapTransaction, and the worker
--               pool as a step relation
--   Accrual     internal/accrual: the reader's interface, its errors, the reader over HTTP and the stub
--   Processor   internal/order: processOrder with its steps, the adaptive strategy, and the queue
--   Users       internal/user/registration.go, internal/auth and internal/security/hash.go
--   Access      internal/middleware/auth.go and the handlers for login and registration
--   Api         internal/api/handler: the handlers, as functions from what is decoded to the response
--   Server      internal/api/impl.go and generated.go, internal/middleware, the handlers as handlers of
--               HTTP requests, internal/api/handler/factory.go, and the service in its steps, and in the
--               rounds of its tasks
--   Config      internal/config/app_config.go
--   Startup     InitContainer and run of cmd/gophermart/main.go, what internal/dependencies/container.go
--               is given, internal/db/factory.go and migrator.go
--   Tests       the theorems at concrete inputs
--
-- A method that reads and writes the database is a function from a World to a Result and a World: what
-- was written before an error stays written. A World counts the calls that leave the program, and an
-- Env says for each of them whether it fails, what the database's clock shows and what identifier is
-- drawn; so a theorem for every Env is one for every pattern of failures. A statement runs at once and
-- as a whole. Where methods are interleaved, the interleaving is a sequence of calls; in
-- Server/System a request, a task and a recovery each run as a whole, in any order. In Server/Rounds a
-- task is its start, its rounds and its end, with requests, recoveries and steps of other tasks between
-- them; a request and a round still run as a whole.
--
-- A handler of HTTP requests is a function from a request and a Site (the World, the worker pool and
-- the log of requests) to what is written and the Site after it. What compress/gzip, the JSON
-- decoders and encoders, chi's choice among the registered routes and the clock give is a parameter;
-- so are viper with the flags and the environment in Config, of which only the answers for the four
-- texts of LoadConfig are relied on, and url.JoinPath, the HTTP client and json.Unmarshal in Accrual.
-- What a theorem needs of them is among its conditions.
--
-- An amount in Go, a float64, is a number of ten-thousandths, and a value of a numeric(16, 2) column a
-- number of hundredths; a cast to the column rounds halves away from zero and fails beyond fourteen
-- digits before the point. The error of binary fractions is not modelled; where it shows most, in the
-- subtraction of Balance.Current, the difference is left as it stands. The names of fields and
-- functions are those of the source in lower case; a method of many steps is cut into functions named
-- for what they do.
--
-- Repeat runs on fuel, one unit for each round: with a limit of n attempts n rounds are enough, and
-- without a limit k rounds are, where the context is done in round k. A context that is never done may
-- let the code go on for ever, and running out of fuel stands for that. Printing a number in an
-- error's text and the method Error of ConfigError, which calls itself, run on fuel as well.
--
-- The process of Startup/Process is a step relation around that of Server/System: its two goroutines,
-- the ticker and a signal take their steps in any order. That the listener cannot be opened or that
-- serving fails is a step of its own; a request that the server has taken up counts as served before
-- Shutdown is called. Stop waits for a pool that it finds started and returns at once from any other,
-- also from one that Start is only called on later. Startup/Orderly and Startup/Run say what every
-- step keeps, Startup/Awaited that a pool which was started is waited for. The database driver and
-- golang-migrate are parameters; what the library documents of versions is the record IsMigrate.
--
-- Not modelled: how long a timer takes, and that the process is killed when the shutdown takes too
-- long; the construction of the logger but for whether it fails; the error types for parameters in
-- generated.go, which no route uses; errors of closing a stream, which the code drops; how the
-- statements of two requests or rounds fall between each other. The encoding of JSON, bcrypt and the
-- random source are outside the program; what they give is an argument.
pub mod Base
pub mod Luhn
pub mod Domain
pub mod Store
pub mod Account
pub mod Orders
pub mod Tools
pub mod Accrual
pub mod Processor
pub mod Users
pub mod Config
pub mod Api
pub mod Access
pub mod Server
pub mod Startup
pub mod Tests
