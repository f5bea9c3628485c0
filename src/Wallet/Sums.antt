-- ===== src/Wallet/Sums.antt =====
-- The sums over ledger_postings: what a transaction's postings and an account's postings add up
-- to (backend/internal/wallet/repo.go, backend/migrations).
use sesfikile.Base.{ℕ, true, ◌≡◌, refl, List, [], ◌∷◌, ◌++◌, ◌==◌, inl, inr, Bool-cases}
use sesfikile.Base.Int.{ℤ, pos, ◌+ℤ◌, int_laws}
use sesfikile.Wallet.Models.{LedgerPosting}
use sesfikile.Wallet.Accounts.{balance_of}
use sesfikile.Wallet.Repo.{new_posting}
use sesfikile.Database.Session.{transaction_total, all_balanced}

pub transaction_total-append :
    (t : ℕ) (ps qs : List LedgerPosting)
    → transaction_total t (ps ++ qs) ≡ transaction_total t ps +ℤ transaction_total t qs
unfolding transaction_total
transaction_total-append t [] qs = omega int_laws
transaction_total-append t (p ∷ ps) qs = elim (Bool-cases (p.transaction_id == t)) [
  | inl yes_it ↦ rw (yes_it, transaction_total-append t ps qs) (omega int_laws)
  | inr not_it ↦ rw (not_it) (transaction_total-append t ps qs)
]

pub balance_of-append :
    (a : ℕ) (ps qs : List LedgerPosting)
    → balance_of a (ps ++ qs) ≡ balance_of a ps +ℤ balance_of a qs
unfolding balance_of
balance_of-append a [] qs = omega int_laws
balance_of-append a (p ∷ ps) qs = elim (Bool-cases (p.account_id == a)) [
  | inl yes_it ↦ rw (yes_it, balance_of-append a ps qs) (omega int_laws)
  | inr not_it ↦ rw not_it (balance_of-append a ps qs)
]

-- Every transaction's postings add up to zero.
abbrev pub Balanced : List LedgerPosting → Type 0
Balanced ps = (t : ℕ) → transaction_total t ps ≡ pos 0

pub Balanced-append : (ps qs : List LedgerPosting) → Balanced ps → Balanced qs → Balanced (ps ++ qs)
Balanced-append ps qs h k t = rw (transaction_total-append t ps qs, h t, k t) (omega int_laws)

-- Of a balanced table the trigger approves whatever it checks.
pub all_balanced-Balanced :
    (queue : List ℕ) (ps : List LedgerPosting) → Balanced ps → all_balanced queue ps ≡ true
unfolding all_balanced
all_balanced-Balanced [] ps h = refl
all_balanced-Balanced (t ∷ queue) ps h = rw (h t) (all_balanced-Balanced queue ps h)

-- Two postings of one transaction that cancel, and four that do.
pub Balanced-two :
    (t a b : ℕ) (x y : ℤ) (i j k l : ℕ)
    → x +ℤ (y +ℤ pos 0) ≡ pos 0
    → Balanced (new_posting t a x i j ∷ new_posting t b y k l ∷ [])
unfolding transaction_total
Balanced-two t a b x y i j k l h u = elim (Bool-cases (t == u)) [
  | inl yes_it ↦ rw yes_it h
  | inr not_it ↦ rw not_it
]

pub Balanced-four :
    (t a b c d : ℕ) (x y z w : ℤ) (i j k l m n o p : ℕ)
    → x +ℤ (y +ℤ (z +ℤ (w +ℤ pos 0))) ≡ pos 0
    → Balanced (
        new_posting t a x i j
        ∷ new_posting t b y k l
        ∷ new_posting t c z m n
        ∷ new_posting t d w o p
        ∷ [])
unfolding transaction_total
Balanced-four t a b c d x y z w i j k l m n o p h u = elim (Bool-cases (t == u)) [
  | inl yes_it ↦ rw yes_it h
  | inr not_it ↦ rw not_it
]
