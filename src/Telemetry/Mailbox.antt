-- ===== src/Telemetry/Mailbox.antt =====
-- What `Hub` and `DriverAlertHub` share (backend/internal/telemetry/hub.go and alerts.go):
-- subscribers under a key, each with a buffered channel that drops what it has no room for. A
-- subscriber's pointer is a number that no other subscriber of the key has.
pub mod Laws
use sesfikile.Base.{
  ℕ, ◌+◌, ◌≤◌, Bool, true, false, ◌≡◌, refl, Option, none, some, List, [], ◌∷◌, ◌++◌, length,
  length-append, All, ltb, ◌==◌, ◌||◌, if◌then◌else◌, arith,
}
use sesfikile.Base.Dict.{Dict, lookup, insert, erase}

pub record Subscriber (M : Type 0) : Type 0 where
  pub pointer : ℕ
  pub key : ℕ
  pub ch : List M

abbrev pub Subs : Type 0 → Type 0
Subs M = Dict (List (Subscriber M))

module _ {M : Type 0} where
  abbrev pub members : ℕ → Subs M → List (Subscriber M)
  members key h = elim (lookup key h) [ none ↦ [] | some set ↦ set ]

  unfoldable pub subscribe : (key pointer : ℕ) → Subs M → Subs M
  subscribe key pointer h =
      insert key (members key h ++ record { pointer = pointer; key = key; ch = [] } ∷ []) h

  -- `delete(set, sub)`
  unfoldable pub without : ℕ → List (Subscriber M) → List (Subscriber M)
  without pointer [] = []
  without pointer (x ∷ xs) =
      if x.pointer == pointer then without pointer xs else x ∷ without pointer xs

  -- `if len(set) == 0 { delete(h.subs, key) }`
  abbrev pub put_set : ℕ → List (Subscriber M) → Subs M → Subs M
  put_set key [] h = erase key h
  put_set key (x ∷ set) h = insert key (x ∷ set) h

  unfoldable pub unsubscribe : (key pointer : ℕ) → Subs M → Subs M
  unsubscribe key pointer h = elim (lookup key h) [
    | none ↦ h
    | some set ↦ put_set key (without pointer set) h
  ]

  -- `select { case sub.ch <- msg: default: }`
  abbrev pub has_room : ℕ → Subscriber M → Bool
  has_room buffer x = ltb (length x.ch) buffer

  abbrev pub offer : ℕ → M → Subscriber M → Subscriber M
  offer buffer msg x = if has_room buffer x then record x { ch = x.ch ++ msg ∷ [] } else x

  unfoldable pub offer_all : ℕ → M → List (Subscriber M) → List (Subscriber M)
  offer_all buffer msg [] = []
  offer_all buffer msg (x ∷ xs) = offer buffer msg x ∷ offer_all buffer msg xs

  unfoldable pub any_room : ℕ → List (Subscriber M) → Bool
  any_room buffer [] = false
  any_room buffer (x ∷ xs) = has_room buffer x || any_room buffer xs

  -- The mailboxes of the key change in place.
  unfoldable pub deliver : ℕ → ℕ → M → Subs M → Subs M
  deliver buffer key msg h = elim (lookup key h) [
    | none ↦ h
    | some set ↦ insert key (offer_all buffer msg set) h
  ]
