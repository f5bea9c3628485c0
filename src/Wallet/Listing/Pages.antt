-- ===== src/Wallet/Listing/Pages.antt =====
-- What a page of an account's transactions holds.
use mathlib.Core.List.{Perm}
use sesfikile.Base.{
  ℕ, zero, suc, ◌≤◌, true, false, some, List, [], ◌∷◌, find?, length, take, drop, ◌==◌, ◌≡◌, refl,
  ap, sym, ◌∙◌, arith, All, All-filter, All-mono,
}
use sesfikile.Base.Sort.{order_by, IsOrdered, order_by-perm, order_by-IsOrdered, length-order_by}
use sesfikile.Wallet.Models.{LedgerTransaction, LedgerPosting, Transaction}
use sesfikile.Wallet.Listing.{join_rows, newer, postings_of, list_transactions_for_account}
use sesfikile.Database.Schema.{Db}
use sesfikile.Database.Session.{Env, Session, database, on_pool}
use sesfikile.Database.Ensures.{Ensures, Ensures-pure, Ensures-bind, Ensures-query, Aborts, Faulty}

newer_trans : (a b c : Transaction) → newer a b ≡ true → newer b c ≡ true → newer a c ≡ true
newer_trans a b c p q = ground arith

newer_total : (a b : Transaction) → newer a b ≡ false → newer b a ≡ true
newer_total a b p = ground arith

-- The transaction of a posting is there, as the foreign key demands.
abbrev pub HasTransaction : Db → LedgerPosting → Type 0
HasTransaction d p =
    (t : LedgerTransaction) × (find? (λ (x : LedgerTransaction). x.id == p.transaction_id)
        d.ledger_transactions
      ≡ some t)

length-join_rows :
    (d : Db) (ps : List LedgerPosting)
    → All (HasTransaction d) ps
    → length (join_rows d.ledger_transactions ps) ≡ length ps
unfolding join_rows
length-join_rows d [] h = refl
length-join_rows d (p ∷ ps) h = rw h.0.1 (ap suc (length-join_rows d ps h.1))

length-take_le {ℓ} : {A : Type ℓ} (n : ℕ) (xs : List A) → length (take n xs) ≤ n
length-take_le zero xs = omega arith
length-take_le (suc n) [] = omega arith
length-take_le (suc n) (x ∷ xs) = omega (arith, length-take_le n xs)

-- The account's postings with their transactions.
abbrev pub entries : ℕ → Db → List Transaction
entries account d = join_rows d.ledger_transactions (postings_of account d)

-- The whole listing that pages are cut from.
abbrev pub IsListing : ℕ → Db → List Transaction → Type 0
IsListing account d all = IsOrdered newer all × Perm all (entries account d)

known_entries :
    (account : ℕ) (d : Db)
    → All (HasTransaction d) d.ledger_postings
    → All (HasTransaction d) (postings_of account d)
known_entries account d h =
    All-mono _ _ (postings_of account d) (λ p k. k.0)
      (All-filter (HasTransaction d) (λ (p : LedgerPosting). p.account_id == account)
        d.ledger_postings h)

module _ ⦃env : Env⦄ (d : Db) where
  -- Where every posting's transaction is there, a page is cut from one listing of all the
  -- account's postings, newest first by time and then by id: it skips `offset` entries and has the
  -- next `limit` ones, or those that are left. The total is the length of that listing, whatever
  -- the page. Nothing is written, and the only error is that of a failed call.
  pub list_transactions_for_account-IsListing :
      (account limit offset : ℕ) (s : Session)
      → All (HasTransaction d) d.ledger_postings
      → s.pool ≡ d
      → Ensures
          (Aborts d (λ e. Faulty env × (e ≡ database)))
          (λ r s'.
            (s'.pool ≡ d)
            × (all : List Transaction) × IsListing account d all
            × (r.1 ≡ length all)
            × (r.0 ≡ take limit (drop offset all))
            × (length r.0 ≤ limit))
          (list_transactions_for_account account limit offset)
          s
  unfolding list_transactions_for_account
  list_transactions_for_account-IsListing account limit offset s known same =
      Ensures-bind (Ensures-query (λ f. (f, refl)) on_pool _ same (λ e h. cc h)) λ txns s1 h1.
        Ensures-bind
          (Ensures-query (λ f. (f, refl)) on_pool _ (ap (λ (x : Session). x.pool) h1.0 ∙ same)
            (λ e h. cc h))
          λ total s2 h2.
            let at1 : s1.pool ≡ d = ap (λ (x : Session). x.pool) h1.0 ∙ same in
            let all : List Transaction = order_by newer (entries account d) in
            let page : txns ≡ take limit (drop offset (order_by newer (entries account d))) =
              sym (rw (← same) cc) in
            let count : total ≡ length (postings_of account d) = sym (rw (← at1) cc) in
            Ensures-pure _ (
              ap (λ (x : Session). x.pool) h2.0 ∙ at1,
              order_by newer (entries account d),
              (
                order_by-IsOrdered newer newer_trans newer_total (entries account d),
                order_by-perm newer (entries account d),
              ),
              count
                  ∙ sym (
                      length-order_by newer (entries account d)
                      ∙ length-join_rows d (postings_of account d) (known_entries account d known)),
              page,
              rw page (length-take_le limit (drop offset (order_by newer (entries account d)))),
            )
