-- ===== src/EventManager/Delivery.antt =====
-- To whom a payload goes, in src/pyDE1/event_manager/event_manager.py.
use py_de.Base.{
  ℕ, ◌≡◌, refl, sym, ap, ◌∙◌, Bool, true, false, ◌||◌, Option, none, some, List, [], ◌∷◌, ◌++◌,
  Error, All, Bool-cases, inl, inr, if◌then◌else◌,
}
use mathlib.Core.List.{append-nil}
use py_de.EventManager.{Subscriber, Event, World, Deliveries, deliver, publish, drop_later}

-- The references that were called, and the identifiers to be unsubscribed.
abbrev pub made : List ℕ → List ℕ → Deliveries
made r l = record { called = r; disappeared = l }

module _ (w : World) where
  abbrev pub is_reachable : Subscriber → Bool
  is_reachable s = s.hard_ref || w.is_alive s.ref

  abbrev pub refs : List Subscriber → List ℕ
  refs [] = []
  refs (s ∷ l) = let rest = refs l in if is_reachable s then s.ref ∷ rest else rest

  abbrev pub lost : List Subscriber → List ℕ
  lost [] = []
  lost (s ∷ l) = let rest = lost l in if is_reachable s then rest else s.id ∷ rest

  -- No callback of these raises.
  abbrev pub IsQuiet : Subscriber → Type 0
  IsQuiet s = w.raised s.ref ≡ none

  abbrev passed : Bool → Subscriber → Deliveries → Option Error → Deliveries × Option Error
  passed true s d e = (record d { called = s.ref ∷ d.called }, e)
  passed false s d e = (record d { disappeared = s.id ∷ d.disappeared }, e)

  deliver-cons :
      (s : Subscriber) (l : List Subscriber) (d : Deliveries) (e : Option Error)
      → IsQuiet s
      → deliver w l ≡ (d, e)
      → deliver w (s ∷ l) ≡ passed (is_reachable s) s d e
  unfolding deliver
  deliver-cons s l d e q h = rw (h, q) (go s.hard_ref (w.is_alive s.ref))
    where
      go :
          (b a : Bool)
          → (if b then passed true s d e else if a then passed true s d e else passed false s d e)
            ≡ passed (b || a) s d e
      go true a = refl
      go false true = refl
      go false false = refl

  passed-made :
      (s : Subscriber) (l : List Subscriber) (r : List ℕ) (e : Option Error)
      → passed (is_reachable s) s (made (refs l ++ r) (lost l)) e
        ≡ (made (refs (s ∷ l) ++ r) (lost (s ∷ l)), e)
  passed-made s l r e = elim (Bool-cases (is_reachable s)) [ inl p ↦ rw p refl | inr p ↦ rw p refl ]

  -- What comes after some subscribers whose callbacks do not raise.
  deliver-append :
      (b l : List Subscriber) (r : List ℕ) (e : Option Error)
      → All IsQuiet b
      → deliver w l ≡ (made r [], e)
      → deliver w (b ++ l) ≡ (made (refs b ++ r) (lost b), e)
  deliver-append [] l r e q h = h
  deliver-append (s ∷ b) l r e q h =
      deliver-cons s (b ++ l) (made (refs b ++ r) (lost b)) e q.0 (deliver-append b l r e q.1 h)
      ∙ passed-made s b r e

  deliver-raised :
      (s : Subscriber) (l : List Subscriber) (e : Error)
      → is_reachable s ≡ true
      → w.raised s.ref ≡ some e
      → deliver w (s ∷ l) ≡ (made (s.ref ∷ []) [], some e)
  unfolding deliver
  deliver-raised s l e p h = rw h (
      go s.hard_ref (w.is_alive s.ref) (made (s.ref ∷ []) [], some e)
        (drop_later s.id (deliver w l).0, (deliver w l).1) p)
    where
      go :
          (b a : Bool) (x y : Deliveries × Option Error)
          → (b || a) ≡ true
          → (if b then x else if a then x else y) ≡ x
      go true a x y p = refl
      go false true x y p = refl
      go false false x y p = absurd (cc)

  deliver-quiet :
      (b : List Subscriber) → All IsQuiet b → deliver w b ≡ (made (refs b) (lost b), none)
  unfolding deliver
  deliver-quiet b q =
      ap (deliver w) (sym (append-nil b))
      ∙ deliver-append b [] [] none q refl
      ∙ ap (λ r. (made r (lost b), none)) (append-nil (refs b))

  -- A payload goes once to every subscriber that can still be reached, in the order in which they
  -- have subscribed, and every other one is unsubscribed later; if a callback raises, the ones before
  -- it and itself have the payload, those after it have not, and `publish` raises. It is the payload
  -- that was sent last in either case.
  pub publish_lem :
      (payload : ℕ) (s : Event)
      → (All IsQuiet s.subscribers
          → publish w payload s ≡ (
            record s { last_sent = some payload },
            (made (refs s.subscribers) (lost s.subscribers), none),
          ))
        × ((b l : List Subscriber) (t : Subscriber) (e : Error)
            → s.subscribers ≡ b ++ (t ∷ l)
            → All IsQuiet b
            → is_reachable t ≡ true
            → w.raised t.ref ≡ some e
            → publish w payload s ≡ (
              record s { last_sent = some payload },
              (made (refs b ++ (t.ref ∷ [])) (lost b), some e),
            ))
  unfolding publish
  publish_lem payload s = (
    (λ q. ap (λ d. (record s { last_sent = some payload }, d)) (deliver-quiet s.subscribers q)),
    λ b l t e split q p h.
        ap (λ d. (record s { last_sent = some payload }, d))
          (ap (deliver w) split
            ∙ deliver-append b (t ∷ l) (t.ref ∷ []) (some e) q (deliver-raised t l e p h)),
  )
