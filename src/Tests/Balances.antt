-- ===== src/Tests/Balances.antt =====
-- A signed-in user asks for the balance.
use sufirmart.Base.{
  ◌≡◌, refl, true, false, some, none, [], ◌∷◌, bytes, has_prefix, str_eq, ok, if◌then◌else◌,
}
use sufirmart.Domain.UserId.{new_user_id}
use sufirmart.Store.{AuthRow}
use sufirmart.Store.Table.{select}
use sufirmart.Store.Statement.{World}
use sufirmart.Account.Ledger.{IsLedger}
use sufirmart.Users.{live_row}
use sufirmart.Api.Space.{trim_space}
use sufirmart.Api.Balances.{balance_response}
use sufirmart.Access.{trim_prefix}
use sufirmart.Access.Refusal.{bearer_token}
use sufirmart.Server.{Request, Site, written}
use sufirmart.Server.Middleware.{contains, compressed}
use sufirmart.Server.Init.{serve}
use sufirmart.Server.Balance.{serve_balance}
use sufirmart.Tests.Sample.{calm-IsUp, ann, world, world-IsLedger}
use sufirmart.Tests.Requests.{container, lib, site, asking, balance_route, asking-chosen}

abbrev session : AuthRow
session = record { user_id = ann; token = bytes "c0ffee"; expired_at = 86400 }

abbrev open_world : World
open_world = record world { db = record world.db { auths = session ∷ [] } }

abbrev open_site : Site
open_site = record site { world = open_world }

open_world-IsLedger : IsLedger open_world.db
open_world-IsLedger = record {
  rows = world-IsLedger.rows;
  balanced = world-IsLedger.balanced;
  solvent = world-IsLedger.solvent;
}

abbrev signed : Request
signed = record asking { authorization = bytes "Bearer c0ffee" }

signed-formed : has_prefix (bytes "Bearer c0ffee") (bytes "Bearer ") ≡ true
unfolding has_prefix
signed-formed = refl

signed-token : bearer_token (bytes "Bearer c0ffee") ≡ bytes "c0ffee"
unfolding trim_space trim_prefix
signed-token = refl

session-live : live_row (bytes "c0ffee") 0 open_world.db ≡ some session
unfolding select str_eq
session-live = refl

ann-valid : new_user_id ann ≡ ok ann
unfolding new_user_id
ann-valid = refl

not_encoded : contains [] (bytes "gzip") ≡ false
unfolding contains has_prefix
not_encoded = refl

serve_balance_example :
    ((serve container signed open_site).0 ≡ (
      if contains signed.accept_encoding (bytes "gzip")
      then compressed lib (written lib (balance_response ann open_world.db) none)
      else written lib (balance_response ann open_world.db) none))
    × ((serve container signed open_site).1.world.db ≡ open_world.db)
    × ((serve container signed open_site).1.pool ≡ none)
serve_balance_example =
    serve_balance container calm-IsUp signed open_site b'c' (bytes "0ffee") session b'0'
      (bytes "1234567-89ab-7cde-8f01-23456789abcd") open_world-IsLedger signed-formed signed-token
      session-live ann-valid not_encoded balance_route asking-chosen refl
