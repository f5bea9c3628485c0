-- ===== src/Wallet/Invariant.antt =====
-- The soundness of the ledger between two requests, and a movement of money
-- (backend/internal/wallet/repo.go, backend/migrations).
pub mod Keeps
pub mod Fares
use sesfikile.Base.{
  ℕ, ◌+◌, ◌≤◌, Bool, true, false, ◌≡◌, ◌≢◌, refl, sym, ap, ◌∙◌, subst, Option, none, some, List, [],
  ◌∷◌, ◌++◌, find?, any, All, All-append, inl, inr, Bool-cases, arith, if◌then◌else◌, ◌==◌,
}
use sesfikile.Base.Int.{ℤ, pos, ◌+ℤ◌, ◌-ℤ◌, ◌≤ℤ◌, pos_part, neg_part, int_laws}
use sesfikile.Base.Text.{Text, text_eq, eq_of_text_eq}
use sesfikile.Wallet.Models.{
  AccountType, funding_source, commuter_wallet, Account, LedgerTransaction, LedgerPosting,
}
use sesfikile.Wallet.Split.{FareSplit, split_fare}
use sesfikile.Wallet.Split.Shares.{Priced, split_fare-FairShares}
use sesfikile.Wallet.Accounts.{ordinal, is_account, balance_of}
use sesfikile.Wallet.Repo.{has_key, key_taken, new_posting}
use sesfikile.Wallet.Sums.{
  Balanced, Balanced-append, Balanced-two, Balanced-four, balance_of-append,
}
use sesfikile.Wallet.Staging.{stage}
use sesfikile.Wallet.Transfers.{transfer_postings, Moved, cancels}
use sesfikile.Wallet.Charges.{fare_postings, Paid}
use sesfikile.Database.Schema.{Db}

-- The account with this id is no funding source.
abbrev pub NotFunding : ℕ → Account → Type 0
NotFunding id a = a.id ≡ id → ordinal a.type ≢ ordinal funding_source

abbrev pub count_key : Text → List LedgerTransaction → ℕ
count_key key [] = 0
count_key key (t ∷ ts) = if has_key key t then 1 + count_key key ts else count_key key ts

-- Every transaction's postings cancel; no account but the funding source is overdrawn; and no
-- idempotency key is used twice.
pub record IsSound (d : Db) : Type 0 where
  pub balanced : Balanced d.ledger_postings
  pub solvent : (id : ℕ) → All (NotFunding id) d.accounts → pos 0 ≤ℤ balance_of id d.ledger_postings
  pub once : (key : Text) → count_key key d.ledger_transactions ≤ 1

pub count_key-append :
    (key : Text) (ts us : List LedgerTransaction)
    → count_key key (ts ++ us) ≡ count_key key ts + count_key key us
count_key-append key [] us = omega arith
count_key-append key (t ∷ ts) us = ground (arith, count_key-append key ts us)

pub count_key-free :
    (key : Text) (ts : List LedgerTransaction)
    → key_taken (some key) ts ≡ false
    → count_key key ts ≡ 0
count_key-free key [] h = refl
count_key-free key (t ∷ ts) h = ground (arith, count_key-free key ts)

pub All-before {ℓ} : {A : Type 0} (P : A → Type ℓ) (xs ys : List A) → All P (xs ++ ys) → All P xs
All-before P [] ys h = tt
All-before P (x ∷ xs) ys h = (h.0, All-before P xs ys h.1)

-- An account that is found under another type than the funding source's is no funding source: so
-- the one that is overdrawn by a top-up is excluded from `solvent`.
pub excluded :
    (owner : Option ℕ) (accounts : List Account) (a : Account)
    → find? (is_account owner funding_source) accounts ≡ some a
    → All (NotFunding a.id) accounts
    → ⊥
excluded owner [] a h n = cc
excluded owner (b ∷ accounts) a h n = ground (arith, excluded owner accounts a, n.0)

-- The balance of `id` after two postings of a transfer.
pub balance-transfer :
    (id t a b : ℕ) (x : ℤ) (i j k l : ℕ)
    → balance_of id (transfer_postings t a b x i j k l)
      ≡ (if a == id then pos 0 -ℤ x else pos 0) +ℤ (if b == id then x else pos 0)
unfolding balance_of
balance-transfer id t a b x i j k l = elim (Bool-cases (a == id)) [
  | inl e ↦ elim (Bool-cases (b == id)) [
    | inl f ↦ rw (e, f) (omega int_laws)
    | inr f ↦ rw (e, f) (omega int_laws)
  ]
  | inr e ↦ elim (Bool-cases (b == id)) [
    | inl f ↦ rw (e, f) (omega int_laws)
    | inr f ↦ rw (e, f) (omega int_laws)
  ]
]
