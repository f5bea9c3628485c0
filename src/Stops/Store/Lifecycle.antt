-- ===== src/Stops/Store/Lifecycle.antt =====
-- The life of a stop request (backend/internal/stops/store.go).
use sesfikile.Base.{
  ℕ, ◌≡◌, ◌≢◌, refl, sym, ap, subst, Option, some, ◌⊎◌, inl, inr, Bool-cases, ◌==◌, ==_iff,
}
use sesfikile.Base.Dict.{lookup, insert, lookup-insert}
use sesfikile.Stops.Models.{Status, pending, unmatched, acknowledged, Request}
use sesfikile.Stops.Store.{Store, get, acknowledge_found, acknowledge}

pub insert-same : (id : ℕ) (r : Request) (s : Store) → lookup id (insert id r s) ≡ some r
insert-same id r s = rw lookup-insert (rw ((==_iff id id).1 refl) refl)

pub insert-other :
    (id k : ℕ) (r : Request) (s : Store) → id ≢ k → lookup k (insert id r s) ≡ lookup k s
insert-other id k r s ne = elim (Bool-cases (id == k)) [
  | inl e ↦ absurd (ne ((==_iff id k).0 e))
  | inr e ↦ rw lookup-insert (rw e refl)
]

-- The record that an acknowledgement leaves: the same one if it was acknowledged, else the one with
-- the status and the time of the acknowledgement, and every other field as it was.
abbrev pub IsAcked : ℕ → Request → Request → Type 0
IsAcked now req acked =
    ((req.status ≡ acknowledged) × (acked ≡ req))
    ⊎ ((req.status ≢ acknowledged)
        × (acked ≡ record {
          id = req.id;
          commuter_id = req.commuter_id;
          route_id = req.route_id;
          stop_id = req.stop_id;
          stop_name = req.stop_name;
          requested_at = req.requested_at;
          status = acknowledged;
          matched_driver_id = req.matched_driver_id;
          acked_at = some now;
        }))

-- What an acknowledgement leaves: the stored record, which a second one returns.
Acked : (id now later : ℕ) → Store → Request → Store × Option Request → Type 0
Acked id now later s req (s', answer) =
    (acked : Request) × (answer ≡ some acked)
    × (lookup id s' ≡ some acked)
    × (acked.status ≡ acknowledged)
    × IsAcked now req acked
    × (acknowledge id later s' ≡ (s', some acked))
    × ((k : ℕ) → id ≢ k → lookup k s' ≡ lookup k s)

settled :
    (id later : ℕ) (s : Store) (r : Request)
    → lookup id s ≡ some r
    → r.status ≡ acknowledged
    → acknowledge id later s ≡ (s, some r)
unfolding acknowledge
settled id later s r e a =
    rw (e, acknowledge) (ap (λ (x : Status). acknowledge_found id later r x s) a)

found-Acked :
    (id now later : ℕ) (s : Store) (req : Request) (status : Status)
    → req.status ≡ status
    → lookup id s ≡ some req
    → Acked id now later s req (acknowledge_found id now req status s)
unfolding Acked
found-Acked id now later s req acknowledged a e =
    (req, refl, e, a, inl (a, refl), settled id later s req e a, λ k ne. refl)
found-Acked id now later s req pending a e =
    let acked : Request = record req { status = acknowledged; acked_at = some now } in
    (
      acked,
      refl,
      insert-same id acked s,
      refl,
      inr (λ x. cc (a, x), refl),
      settled id later (insert id acked s) acked (insert-same id acked s) refl,
      λ k ne. insert-other id k acked s ne,
    )
found-Acked id now later s req unmatched a e =
    let acked : Request = record req { status = acknowledged; acked_at = some now } in
    (
      acked,
      refl,
      insert-same id acked s,
      refl,
      inr (λ x. cc (a, x), refl),
      settled id later (insert id acked s) acked (insert-same id acked s) refl,
      λ k ne. insert-other id k acked s ne,
    )

on_found :
    (id now : ℕ) (s : Store) (req : Request)
    → lookup id s ≡ some req
    → acknowledge id now s ≡ acknowledge_found id now req req.status s
unfolding acknowledge
on_found id now s req e = rw (e, acknowledge) refl

-- After the acknowledgement of a request that is stored, it is stored as acknowledged, and that
-- record is returned: it is the one that was there if it was acknowledged before, else it has the
-- time of the acknowledgement, with every other field as it was. A second acknowledgement, at any
-- time, returns that record and changes nothing; and no other request has changed.
pub acknowledge_twice :
    (id now later : ℕ) (s : Store) (req : Request)
    → get id s ≡ some req
    → (acked : Request) × ((acknowledge id now s).1 ≡ some acked)
      × (get id (acknowledge id now s).0 ≡ some acked)
      × (acked.status ≡ acknowledged)
      × IsAcked now req acked
      × (acknowledge id later (acknowledge id now s).0 ≡ ((acknowledge id now s).0, some acked))
      × ((k : ℕ) → id ≢ k → get k (acknowledge id now s).0 ≡ get k s)
unfolding get Acked
acknowledge_twice id now later s req e =
    subst (λ (x : Store × Option Request). Acked id now later s req x)
      (sym (on_found id now s req e)) (found-Acked id now later s req req.status refl e)
