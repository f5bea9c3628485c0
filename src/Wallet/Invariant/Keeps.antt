-- ===== src/Wallet/Invariant/Keeps.antt =====
-- The soundness of the ledger behind a top-up, a transfer and a fare
-- (backend/internal/wallet/repo.go).
use sesfikile.Base.{
  ℕ, ◌≤◌, true, ◌≡◌, ap, Option, none, some, [], ◌∷◌, ◌++◌, All, inl, inr, Bool-cases, arith,
  if◌then◌else◌, ◌==◌,
}
use sesfikile.Base.Int.{ℤ, pos, ◌+ℤ◌, ◌-ℤ◌, ◌≤ℤ◌, int_laws}
use sesfikile.Base.Text.{Text}
use sesfikile.Wallet.Models.{AccountType, funding_source, commuter_wallet, LedgerTransaction}
use sesfikile.Wallet.Accounts.{balance_of}
use sesfikile.Wallet.Sums.{Balanced, Balanced-append, Balanced-two, balance_of-append}
use sesfikile.Wallet.Transfers.{transfer_postings, Moved, cancels}
use sesfikile.Database.Schema.{Db}
use sesfikile.Wallet.Invariant.{
  NotFunding, count_key, IsSound, count_key-append, All-before, excluded, balance-transfer,
}

-- A posting pair keeps a balance from falling below zero if the source is another account or
-- covers the amount.
kept_transfer :
    (id a b : ℕ) (x old : ℤ)
    → pos 0 ≤ℤ x
    → pos 0 ≤ℤ old
    → ((a == id) ≡ true → x ≤ℤ old)
    → pos 0 ≤ℤ old +ℤ ((if a == id then pos 0 -ℤ x else pos 0) +ℤ (if b == id then x else pos 0))
kept_transfer id a b x old px po cover = elim (Bool-cases (a == id)) [
  | inl e ↦ elim (Bool-cases (b == id)) [
    | inl f ↦ rw (e, f) (omega (int_laws, cover e))
    | inr f ↦ rw (e, f) (omega (int_laws, cover e))
  ]
  | inr e ↦ elim (Bool-cases (b == id)) [
    | inl f ↦ rw (e, f) (omega int_laws)
    | inr f ↦ rw (e, f) (omega int_laws)
  ]
]

module _ {o o' : Option ℕ} {type type' : AccountType} {x : ℤ} {t : LedgerTransaction} {d d' : Db}
    (m : Moved o type o' type' x t d d') where
  Moved-postings :
      d'.ledger_postings
      ≡ d.ledger_postings ++ transfer_postings t.id m.source.id m.target.id x m.i m.j m.k m.l
  Moved-postings = ap (λ (y : Db). y.ledger_postings) m.tables

  Moved-Balanced : Balanced d.ledger_postings → Balanced d'.ledger_postings
  Moved-Balanced h = rw Moved-postings (
      Balanced-append d.ledger_postings _ h
        (Balanced-two t.id m.source.id m.target.id (pos 0 -ℤ x) x m.i m.j m.k m.l (cancels x)))

  Moved-solvent :
      IsSound d
      → pos 0 ≤ℤ x
      → ((id : ℕ)
          → All (NotFunding id) d'.accounts
          → (m.source.id == id) ≡ true
          → x ≤ℤ balance_of id d.ledger_postings)
      → (id : ℕ) → All (NotFunding id) d'.accounts
      → pos 0 ≤ℤ balance_of id d'.ledger_postings
  Moved-solvent h px cover id n =
      let before =
        All-before (NotFunding id) d.accounts m.new
          (rw (ap (λ (y : Db). y.accounts) m.tables) at n) in
      rw
        (
          Moved-postings,
          balance_of-append id d.ledger_postings,
          balance-transfer id t.id m.source.id m.target.id,
        )
        (kept_transfer id m.source.id m.target.id x (balance_of id d.ledger_postings) px
          (h.solvent id before) (cover id n))

  -- A transaction with no key leaves the keys as they are.
  Moved-once : IsSound d → (key : Text) → count_key key d'.ledger_transactions ≤ 1
  Moved-once h key =
      rw
        (
          ap (λ (y : Db). y.ledger_transactions) m.tables,
          count_key-append key d.ledger_transactions (t ∷ []),
          m.unkeyed,
        )
        (omega (arith, h.once key))

-- A top-up keeps the ledger sound.
pub top_up-IsSound :
    {u : ℕ} {x : ℤ} {t : LedgerTransaction} {d d' : Db}
    → Moved none funding_source (some u) commuter_wallet x t d d'
    → pos 0 ≤ℤ x
    → IsSound d
    → IsSound d'
top_up-IsSound {x} {d} {d'} m px h = record {
  balanced = Moved-Balanced m h.balanced;
  solvent =
      Moved-solvent m h px
        (λ id n e. absurd (excluded none d'.accounts m.source m.source_found (rw (same id e) n)));
  once = Moved-once m h;
}
  where
    same : (id : ℕ) → (m.source.id == id) ≡ true → m.source.id ≡ id
    same id e = ground arith

-- A transfer from an account that covers the amount keeps the ledger sound.
pub transfer-IsSound :
    {o o' : Option ℕ} {type type' : AccountType} {x : ℤ} {t : LedgerTransaction} {d d' : Db}
    (m : Moved o type o' type' x t d d')
    → pos 1 ≤ℤ x
    → x ≤ℤ balance_of m.source.id d.ledger_postings
    → IsSound d
    → IsSound d'
transfer-IsSound {x} {d} m px cover h = record {
  balanced = Moved-Balanced m h.balanced;
  solvent = Moved-solvent m h (omega arith) (λ id n e. rw (← same id e) cover);
  once = Moved-once m h;
}
  where
    same : (id : ℕ) → (m.source.id == id) ≡ true → m.source.id ≡ id
    same id e = ground arith
