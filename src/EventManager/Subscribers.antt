-- ===== src/EventManager/Subscribers.antt =====
-- The list of the subscribers in src/pyDE1/event_manager/event_manager.py stands for a map from
-- identifiers: the order and the list are forgotten.
use py_de.Base.{
  ℕ, suc, ◌≤◌, ◌≡◌, refl, ap, ◌∙◌, Bool, true, Option, none, some, List, [], ◌∷◌, ◌++◌, Result, ok,
  err, arith, length, ltb, ◌==◌, Bool-cases, inl, inr, if◌then◌else◌,
}
use py_de.EventManager.{
  Callback, Subscriber, Event, uuid, subscriber_of, subscribe, without, unsubscribe,
}

-- The calls that change the list.
pub data Call : Type 0 where
  subscribing : ℕ → Callback → Call
  unsubscribing : ℕ → Call

abbrev accepted : Result ℕ → Option Bool
accepted (ok id) = some true
accepted (err e) = none

abbrev noted : Event × Result ℕ → Event × Option Bool
noted (s, r) = (s, accepted r)

unfoldable pub call : Call → Event → Event × Option Bool
unfolding subscribe unsubscribe
call (subscribing id c) s = noted (subscribe id c s)
call (unsubscribing id) s = unsubscribe (λ t. none) (uuid id) s

unfoldable pub calls : List Call → Event → Event × List (Option Bool)
unfolding call
calls [] s = (s, [])
calls (c ∷ cs) s = let (s', a) = call c s in let (s'', as') = calls cs s' in (s'', a ∷ as')

-- The same calls on a map.
abbrev pub Map : Type 0
Map = ℕ → Option Subscriber

abbrev found : Option Subscriber → Option Bool
found none = none
found (some s) = some true

abbrev pub on_map : Call → Map → Map × Option Bool
on_map (subscribing id c) f =
    if c.parameters == 1
    then ((λ j. if id == j then some (subscriber_of id c) else f j), some true)
    else (f, none)
on_map (unsubscribing id) f = ((λ j. if id == j then none else f j), found (f id))

abbrev pub all_on_map : List Call → Map → Map × List (Option Bool)
all_on_map [] f = (f, [])
all_on_map (c ∷ cs) f =
    let (f', a) = on_map c f in let (f'', as') = all_on_map cs f' in (f'', a ∷ as')

-- `uuid4` gives an identifier that no subscriber has.
abbrev pub IsFresh : List Call → Map → Type 0
IsFresh [] f = Unit
IsFresh (subscribing id c ∷ cs) f = (f id ≡ none) × IsFresh cs (on_map (subscribing id c) f).0
IsFresh (unsubscribing id ∷ cs) f = IsFresh cs (on_map (unsubscribing id) f).0

abbrev pub lookup : List Subscriber → Map
lookup [] j = none
lookup (s ∷ l) j = let rest = lookup l j in if s.id == j then some s else rest

abbrev pub Represents : Event → Map → Type 0
Represents s f = (j : ℕ) → lookup s.subscribers j ≡ f j

lookup-append :
    (l : List Subscriber) (s : Subscriber) (j : ℕ)
    → lookup l s.id ≡ none
    → lookup (l ++ (s ∷ [])) j ≡ (if s.id == j then some s else lookup l j)
lookup-append [] s j h = refl
lookup-append (t ∷ l) s j h = ground (arith, lookup-append l s j)

lookup-without :
    (l : List Subscriber) (id j : ℕ)
    → lookup (without id l) j ≡ (if id == j then none else lookup l j)
lookup-without [] id j = ground arith
lookup-without (t ∷ l) id j = elim (Bool-cases (t.id == id)) [
  | inl p ↦ rw p (ground (arith, lookup-without l id j))
  | inr p ↦ rw p (ground (arith, lookup-without l id j))
]

length-without : (l : List Subscriber) (id : ℕ) → length (without id l) ≤ length l
length-without [] id = omega arith
length-without (t ∷ l) id = ground (arith, length-without l id)

without-found_cons :
    (l : List Subscriber) (id : ℕ)
    → (if ltb (suc (length (without id l))) (suc (length l)) then some true else none)
      ≡ (if ltb (length (without id l)) (length l) then some true else none)
without-found_cons l id = ground arith

-- A list is shorter without an identifier exactly if some subscriber has it.
without-found :
    (l : List Subscriber) (id : ℕ)
    → (if ltb (length (without id l)) (length l) then some true else none) ≡ found (lookup l id)
without-found [] id = refl
without-found (t ∷ l) id = elim (Bool-cases (t.id == id)) [
  | inl p ↦ rw p (ground (arith, length-without l id))
  | inr p ↦ rw p (without-found_cons l id ∙ without-found l id)
]

call-Represents :
    (c : Call) (s : Event) (f : Map)
    → Represents s f
    → IsFresh (c ∷ []) f
    → Represents (call c s).0 (on_map c f).0 × ((call c s).1 ≡ (on_map c f).1)
unfolding call
call-Represents (subscribing id c) s f r (h, _) = elim (Bool-cases (c.parameters == 1)) [
  | inl p ↦ rw p (
    (λ j.
        lookup-append s.subscribers (subscriber_of id c) j (r id ∙ h)
        ∙ ap (λ o. if id == j then some (subscriber_of id c) else o) (r j)),
    refl,
  )
  | inr p ↦ rw p (r, refl)
]
call-Represents (unsubscribing id) s f r h = (
  (λ j. lookup-without s.subscribers id j ∙ ap (λ o. if id == j then none else o) (r j)),
  without-found s.subscribers id ∙ ap found (r id),
)

-- Whatever is subscribed and unsubscribed, with fresh identifiers, the list stands for the map that
-- the same calls make, and every call answers as it does on the map.
pub calls-Represents :
    (cs : List Call) (s : Event) (f : Map)
    → Represents s f
    → IsFresh cs f
    → Represents (calls cs s).0 (all_on_map cs f).0 × ((calls cs s).1 ≡ (all_on_map cs f).1)
unfolding calls
calls-Represents [] s f r h = (r, refl)
calls-Represents (c ∷ cs) s f r h =
    let (first, fresh) = split c h in
    let (r', e) = call-Represents c s f r first in
    let (r'', es) = calls-Represents cs (call c s).0 (on_map c f).0 r' fresh in
    (r'', λ i. e i ∷ es i)
  where
    split : (c : Call) → IsFresh (c ∷ cs) f → IsFresh (c ∷ []) f × IsFresh cs (on_map c f).0
    split (subscribing id k) (a, b) = ((a, tt), b)
    split (unsubscribing id) b = (tt, b)
