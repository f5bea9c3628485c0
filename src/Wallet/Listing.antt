-- ===== src/Wallet/Listing.antt =====
-- `ListTransactionsForAccount` of backend/internal/wallet/repo.go: an account's postings, joined to
-- their transactions, newest first and by pages.
pub mod Pages
use sesfikile.Base.{
  ℕ, Bool, true, false, Option, none, some, List, [], ◌∷◌, ◌++◌, filter, find?, length, take, drop,
  ltb, leb, ◌==◌, if◌then◌else◌,
}
use sesfikile.Base.Sort.{order_by}
use sesfikile.Wallet.Models.{
  note, fare_details, allocation_details, Metadata, LedgerTransaction, LedgerPosting, Transaction,
}
use sesfikile.Database.Schema.{Db}
use sesfikile.Database.Session.{Env, Result, ok, err, Action, pure, ◌>>=◌, on_pool, query}

-- `NULLIF(lt.metadata->>'vehicle_id', '')::uuid`: only a fare's metadata has that key.
abbrev pub vehicle_of : Metadata → Option ℕ
vehicle_of (note t) = none
vehicle_of (fare_details m) = some m.vehicle_id
vehicle_of (allocation_details a b c) = none

abbrev pub joined : LedgerPosting → LedgerTransaction → Transaction
joined lp lt = record {
  transaction_id = lt.id;
  kind = lt.kind;
  amount_cents = lp.amount_cents;
  occurred_at = lt.created_at;
  vehicle_id = vehicle_of lt.metadata;
}

-- The JOIN, on the primary key of ledger_transactions.
unfoldable pub join_rows : List LedgerTransaction → List LedgerPosting → List Transaction
join_rows ts [] = []
join_rows ts (lp ∷ rest) =
    elim (find? (λ (t : LedgerTransaction). t.id == lp.transaction_id) ts) [
      | none ↦ []
      | some lt ↦ joined lp lt ∷ []
    ]
    ++ join_rows ts rest

-- `ORDER BY lt.created_at DESC, lt.id DESC`
abbrev pub newer : Transaction → Transaction → Bool
newer a b =
    if ltb b.occurred_at a.occurred_at
    then true
    else if a.occurred_at == b.occurred_at
    then leb b.transaction_id a.transaction_id
    else false

abbrev pub postings_of : ℕ → Db → List LedgerPosting
postings_of account d = filter (λ (p : LedgerPosting). p.account_id == account) d.ledger_postings

unfoldable pub list_transactions_for_account :
    ⦃env : Env⦄ → (account limit offset : ℕ) → Action (List Transaction × ℕ)
list_transactions_for_account account limit offset = do
  txns ← query on_pool (λ d. ok (
      take limit
        (drop offset (order_by newer (join_rows d.ledger_transactions (postings_of account d))))))
  total ← query on_pool (λ d. ok (length (postings_of account d)))
  pure (txns, total)
