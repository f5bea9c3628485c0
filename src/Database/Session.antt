-- ===== src/Database/Session.antt =====
-- A request's use of the database. A call works on the committed tables (`pool`) or on those of
-- the open transaction (`tx`); `commit` publishes the latter, and a return without it rolls back.
use sesfikile.Base.{ℕ, ◌+◌, Bool, true, false, List, [], ◌∷◌, ◌&&◌, if◌then◌else◌, ◌==◌}
use sesfikile.Base.Int.{ℤ, pos, ◌+ℤ◌, eqb_ℤ}
use sesfikile.Base.Text.{Text}
use sesfikile.Wallet.Models.{LedgerPosting}
use sesfikile.Database.Schema.{Db}

-- What the server and the connection decide, by the number of the call: whether it ends in a
-- driver error, which id `gen_random_uuid()` draws, and what `now()` reads.
pub record Env : Type 0 where
  pub fails : ℕ → Bool
  pub new_id : ℕ → ℕ
  pub now : ℕ → ℕ
  -- the collation: that a text does not come after another
  pub collates : Text → Text → Bool

pub record Session : Type 0 where
  pub pool : Db
  pub tx : Db
  -- the transactions whose postings the deferred trigger checks at the commit
  pub touched : List ℕ
  pub clock : ℕ

-- `database` is any error of the driver, `out_of_range` a sum that does not fit an int64,
-- `unbalanced` the exception of the ledger's trigger, `constraint` a failed CHECK, and `bad_json`
-- what encoding/json reports.
pub data Error : Type 0 where
  database out_of_range unbalanced constraint unique_violation no_rows not_found : Error
  insufficient_funds no_active_driver idempotency_required invalid_amount : Error
  not_owners_vehicle nothing_to_allocate code_not_found : Error
  already_exists foreign_key_violation bad_json : Error

pub data Result {ℓ} (A : Type ℓ) : Type ℓ where
  ok : A → Result A
  err : Error → Result A

abbrev pub Action {ℓ} : Type ℓ → Type ℓ
Action A = Session → Result A × Session

module _ {ℓ} {A : Type ℓ} where
  unfoldable pub pure : A → Action A
  pure a s = (ok a, s)

  unfoldable pub raise : Error → Action A
  raise e s = (err e, s)

  -- `if err != nil { … }` that does more than hand the error on
  unfoldable pub catch : Action A → (Error → Action A) → Action A
  catch m h s = let (r, s') = m s in elim r [ ok a ↦ (ok a, s') | err e ↦ h e s' ]

module _ {ℓ κ} {A : Type ℓ} {B : Type κ} where
  infixl 5 ◌>>=◌
  unfoldable pub ◌>>=◌ : Action A → (A → Action B) → Action B
  ◌>>=◌ m f s = let (r, s') = m s in elim r [ ok a ↦ f a s' | err e ↦ (err e, s') ]

infixl 5 ◌>>◌
abbrev pub ◌>>◌ {ℓ} : {B : Type ℓ} → Action (Unit {0}) → Action B → Action B
m >> k = m >>= λ _. k

-- `if cond { return …, err }`
unfoldable pub raise_if : Bool → Error → Action (Unit {0})
raise_if true e s = (err e, s)
raise_if false e s = (ok tt, s)

-- `querier`: the pool or the open transaction.
pub data Querier : Type 0 where
  on_pool on_tx : Querier

abbrev pub view : Querier → Session → Db
view on_pool s = s.pool
view on_tx s = s.tx

abbrev pub store : Querier → Db → Session → Session
store on_pool d s = record s { pool = d }
store on_tx d s = record s { tx = d }

abbrev pub tick : Session → Session
tick s = record s { clock = s.clock + 1 }

-- The amounts of one transaction's postings, added up.
unfoldable pub transaction_total : ℕ → List LedgerPosting → ℤ
transaction_total t [] = pos 0
transaction_total t (p ∷ ps) =
    if p.transaction_id == t
    then p.amount_cents +ℤ transaction_total t ps
    else transaction_total t ps

-- The trigger `ledger_postings_balanced`, deferred to the commit.
unfoldable pub all_balanced : List ℕ → List LedgerPosting → Bool
all_balanced [] ps = true
all_balanced (t ∷ ts) ps = eqb_ℤ (transaction_total t ps) (pos 0) && all_balanced ts ps

module _ ⦃env : Env⦄ where
  -- A statement that only reads.
  unfoldable pub query {ℓ} : {A : Type ℓ} → Querier → (Db → Result A) → Action A
  query q f s = if env.fails s.clock then (err database, tick s) else (f (view q s), tick s)

  -- A statement that writes; it is given the id and the time that its defaults draw.
  unfoldable pub exec {ℓ} : {A : Type ℓ} → Querier → (ℕ → ℕ → Db → Result (A × Db)) → Action A
  exec q f s =
      if env.fails s.clock
      then (err database, tick s)
      else elim (f (env.new_id s.clock) (env.now s.clock) (view q s)) [
        | ok (a, d) ↦ (ok a, store q d (tick s))
        | err e ↦ (err e, tick s)
      ]

  unfoldable pub begin : Action (Unit {0})
  begin s =
      if env.fails s.clock
      then (err database, tick s)
      else (ok tt, record (tick s) { tx = s.pool; touched = [] })

  -- A commit that reports an error has not committed.
  unfoldable pub commit : Action (Unit {0})
  commit s =
      if env.fails s.clock
      then (err database, tick s)
      else if all_balanced s.touched s.tx.ledger_postings
      then (ok tt, record (tick s) { pool = s.tx })
      else (err unbalanced, tick s)
