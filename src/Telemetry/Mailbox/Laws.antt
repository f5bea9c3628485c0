-- ===== src/Telemetry/Mailbox/Laws.antt =====
-- Delivery to the subscribers of a key, and the room in their mailboxes
-- (backend/internal/telemetry/hub.go and alerts.go).
use sesfikile.Base.{
  ℕ, ◌≡◌, ap, ◌∙◌, map, ltb, ◌++◌, refl, sym, ==_iff, List, [], ◌∷◌, length, ◌==◌, if◌then◌else◌,
  inl, inr, Bool-cases, Option-cases,
}
use sesfikile.Base.Dict.{lookup, lookup-insert}
use sesfikile.Telemetry.Mailbox.{Subscriber, Subs, members, offer, offer_all, deliver}

module _ {M : Type 0} where
  -- A mailbox behind an offer: the message is its last one if there was room for it, else the
  -- mailbox is as it was.
  abbrev pub offered : ℕ → M → Subscriber M → Subscriber M
  offered buffer msg x = record {
    pointer = x.pointer;
    key = x.key;
    ch = if ltb (length x.ch) buffer then x.ch ++ msg ∷ [] else x.ch;
  }

  offer-offered :
      (buffer : ℕ) (msg : M) (x : Subscriber M) → offer buffer msg x ≡ offered buffer msg x
  offer-offered buffer msg x = elim (Bool-cases (ltb (length x.ch) buffer)) [
    | inl room ↦ rw room refl
    | inr full ↦ rw full refl
  ]

  offer_all-map :
      (buffer : ℕ) (msg : M) (set : List (Subscriber M))
      → offer_all buffer msg set ≡ map (offered buffer msg) set
  unfolding offer_all
  offer_all-map buffer msg [] = refl
  offer_all-map buffer msg (x ∷ set) =
      rw (offer-offered buffer msg x, offer_all-map buffer msg set) refl

  offer_none : (buffer : ℕ) (msg : M) → [] ≡ offer_all buffer msg []
  unfolding offer_all
  offer_none buffer msg = refl

  offered_members :
      (buffer key : ℕ) (msg : M) (h : Subs M) (k : ℕ)
      → members k (deliver buffer key msg h)
        ≡ (if key == k then offer_all buffer msg (members k h) else members k h)
  unfolding deliver
  offered_members buffer key msg h k = elim (Option-cases (lookup key h)) [
    | inl e ↦
        rw (e, deliver)
          (elim (Bool-cases (key == k)) [
            | inl same ↦
                rw (same, sym ((==_iff key k).0 same)) (rw (members, e) (offer_none buffer msg))
            | inr other ↦ rw other refl
          ])
    | inr (set, e) ↦
        rw (e, deliver)
          (rw (members, lookup-insert)
            (elim (Bool-cases (key == k)) [
              | inl same ↦ rw (same, sym ((==_iff key k).0 same)) (rw (members, e) refl)
              | inr other ↦ rw other refl
            ]))
  ]

  -- After a delivery, the mailboxes of the key are those that were there, in their order, each with
  -- the message behind what it held if that was less than the buffer, and as it was otherwise; and
  -- the mailboxes of every other key are as they were.
  pub deliver-members :
      (buffer key : ℕ) (msg : M) (h : Subs M) (k : ℕ)
      → members k (deliver buffer key msg h) ≡ (
          if key == k
          then map
              (λ (x : Subscriber M). record {
                pointer = x.pointer;
                key = x.key;
                ch = if ltb (length x.ch) buffer then x.ch ++ msg ∷ [] else x.ch;
              })
              (members k h)
          else members k h)
  deliver-members buffer key msg h k =
      offered_members buffer key msg h k
      ∙ ap (λ (set : List (Subscriber M)). if key == k then set else members k h)
          (offer_all-map buffer msg (members k h))
