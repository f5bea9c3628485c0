-- ===== src/Wallet/Invariant/Fares.antt =====
-- The soundness of the ledger behind a fare, and the balances behind it
-- (backend/internal/wallet/repo.go).
use sesfikile.Base.{
  ℕ, ◌≤◌, Bool, true, false, ◌≡◌, refl, ap, subst, some, List, [], ◌∷◌, ◌++◌, inl, inr, Bool-cases,
  arith, if◌then◌else◌, ◌==◌,
}
use sesfikile.Base.Int.{ℤ, pos, ◌+ℤ◌, ◌-ℤ◌, ◌≤ℤ◌, pos_part, neg_part, int_laws}
use sesfikile.Base.Text.{Text, text_eq, eq_of_text_eq}
use sesfikile.Wallet.Models.{LedgerTransaction, LedgerPosting}
use sesfikile.Wallet.Split.{FareSplit, split_fare}
use sesfikile.Wallet.Split.Shares.{Priced, FairShares, split_fare-FairShares}
use sesfikile.Wallet.Accounts.{balance_of}
use sesfikile.Wallet.Repo.{key_taken}
use sesfikile.Wallet.Sums.{Balanced-append, Balanced-four, balance_of-append}
use sesfikile.Wallet.Charges.{fare_postings, Paid}
use sesfikile.Database.Schema.{Db}
use sesfikile.Wallet.Invariant.{
  NotFunding, count_key, IsSound, count_key-append, count_key-free, All-before,
}

-- What a fare posts to the account `id`.
abbrev pub paid_to : ℕ → (commuter driver owner platform : ℕ) → ℤ → FareSplit → ℤ
paid_to id commuter driver owner platform x s =
    (if commuter == id then pos 0 -ℤ x else pos 0)
    +ℤ ((if driver == id then s.driver_cents else pos 0)
        +ℤ ((if owner == id then s.owner_cents else pos 0)
            +ℤ (if platform == id then s.platform_cents else pos 0)))

-- One posting at the head of a table.
balance_of-cons :
    (id : ℕ) (p : LedgerPosting) (ps : List LedgerPosting)
    → balance_of id (p ∷ ps)
      ≡ (if p.account_id == id then p.amount_cents else pos 0) +ℤ balance_of id ps
unfolding balance_of
balance_of-cons id p ps = elim (Bool-cases (p.account_id == id)) [
  | inl e ↦ rw e
  | inr e ↦ rw e (omega int_laws)
]

balance_of-nil : (id : ℕ) → balance_of id [] ≡ pos 0
unfolding balance_of
balance_of-nil id = refl

+ℤ-zero : (a : ℤ) → a +ℤ pos 0 ≡ a
+ℤ-zero a = omega int_laws

balance-fare :
    (id t c dr o p : ℕ) (x : ℤ) (s : FareSplit) (i j k l : ℕ × ℕ)
    → balance_of id (fare_postings t x s c dr o p i j k l) ≡ paid_to id c dr o p x s
balance-fare id t c dr o p x s i j k l = simp (balance_of-cons, balance_of-nil, +ℤ-zero)

nonneg_if : (b : Bool) (a : ℤ) → pos 0 ≤ℤ a → pos 0 ≤ℤ (if b then a else pos 0)
nonneg_if true a h = h
nonneg_if false a h = omega arith

nonneg_add : (a b : ℤ) → pos 0 ≤ℤ a → pos 0 ≤ℤ b → pos 0 ≤ℤ a +ℤ b
nonneg_add a b h k = omega int_laws

kept_fare :
    (b : Bool) (x old rest : ℤ)
    → pos 0 ≤ℤ old
    → pos 0 ≤ℤ rest
    → (b ≡ true → x ≤ℤ old)
    → pos 0 ≤ℤ old +ℤ ((if b then pos 0 -ℤ x else pos 0) +ℤ rest)
kept_fare true x old rest po pr cover = omega (int_laws, cover refl)
kept_fare false x old rest po pr cover = omega int_laws

module _ {u owner driver : ℕ} {x : ℤ} {s : FareSplit} {t : LedgerTransaction} {d d' : Db}
    (m : Paid u owner driver x s t d d') where
  -- Every account's balance changes by what the fare posts to it: the wallet pays the fare, and the
  -- driver, the owner and the platform get their shares.
  pub Paid-balance :
      (id : ℕ)
      → balance_of id d'.ledger_postings
        ≡ balance_of id d.ledger_postings
          +ℤ paid_to id m.wallet.id m.earnings.id m.revenue.id m.fee.id x s
  Paid-balance id =
      rw (ap (λ (y : Db). y.ledger_postings) m.tables, balance_of-append id d.ledger_postings)
        (ap (λ (b : ℤ). balance_of id d.ledger_postings +ℤ b)
          (balance-fare id t.id m.wallet.id m.earnings.id m.revenue.id m.fee.id x s m.i m.j m.k
            m.l))

-- One more transaction under a key that is free keeps every count at one.
keyed_once :
    (key k : Text) (ts : List LedgerTransaction) (t : LedgerTransaction)
    → t.idempotency_key ≡ some key
    → key_taken (some key) ts ≡ false
    → count_key k ts ≤ 1
    → count_key k (ts ++ t ∷ []) ≤ 1
keyed_once key k ts t keyed free h =
    rw (count_key-append k ts (t ∷ []), keyed)
      (elim (Bool-cases (text_eq key k)) [
        | inl e ↦ rw e (
            omega (
              arith,
              count_key-free k ts (
                  subst (λ (y : Text). key_taken (some y) ts ≡ false) (eq_of_text_eq key k e) free),
            ))
        | inr e ↦ rw e (omega arith)
      ])

-- A fare that was priced within bounds, under a key that was free, keeps the ledger sound.
pub fare-IsSound :
    {u owner driver : ℕ} (x platform_pct driver_pct : ℤ) (key : Text) {t : LedgerTransaction}
    {d d' : Db}
    → Priced x platform_pct driver_pct
    → t.idempotency_key ≡ some key
    → key_taken (some key) d.ledger_transactions ≡ false
    → Paid u owner driver x (split_fare x platform_pct driver_pct) t d d'
    → IsSound d
    → IsSound d'
fare-IsSound x platform_pct driver_pct key {t} {d} {d'} priced keyed free m h =
    let split = split_fare x platform_pct driver_pct in
    record {
      balanced = rw (ap (λ (y : Db). y.ledger_postings) m.tables) (
          Balanced-append d.ledger_postings _ h.balanced (
            Balanced-four t.id m.wallet.id m.earnings.id m.revenue.id m.fee.id (pos 0 -ℤ x) _ _ _
              m.i.0 m.i.1 m.j.0 m.j.1 m.k.0 m.k.1 m.l.0 m.l.1
              (omega (int_laws, ap pos_part fair.3, ap neg_part fair.3))));
      solvent = λ id n.
          let before =
            All-before (NotFunding id) d.accounts m.new
              (rw (ap (λ (y : Db). y.accounts) m.tables) at n) in
          rw (Paid-balance m id) (
            kept_fare (m.wallet.id == id) x (balance_of id d.ledger_postings) _
              (h.solvent id before)
              (nonneg_add _ _
                (nonneg_if (m.earnings.id == id) split.driver_cents (rw fair.1 (omega arith)))
                (nonneg_add _ _ (nonneg_if _ _ fair.2)
                  (nonneg_if (m.fee.id == id) split.platform_cents (rw fair.0 (omega arith)))))
              (λ e. rw (← same id e) m.covered));
      once = λ k.
          rw (ap (λ (y : Db). y.ledger_transactions) m.tables)
            (keyed_once key k d.ledger_transactions t keyed free (h.once k));
    }
  where
    fair : FairShares x platform_pct driver_pct (split_fare x platform_pct driver_pct)
    fair = split_fare-FairShares x platform_pct driver_pct priced

    same : (id : ℕ) → (m.wallet.id == id) ≡ true → m.wallet.id ≡ id
    same id e = ground arith
