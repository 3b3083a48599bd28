-- ===== src/Tests/Events.antt =====
-- An event with some subscribers.
use py_de.Base.{
  ℕ, ◌≡◌, ◌++◌, refl, true, false, none, some, List, [], ◌∷◌, All, Error, value_error,
  if◌then◌else◌, ◌==◌,
}
use py_de.EventManager.{Callback, Subscriber, Event, World, publish, subscriber_of}
use py_de.EventManager.Subscribers.{
  Call, subscribing, unsubscribing, Represents, calls, all_on_map, calls-Represents,
}
use py_de.EventManager.Delivery.{IsQuiet, is_reachable, refs, lost, made, publish_lem}

abbrev callback : ℕ → Callback
callback n = record {
  handle = n;
  is_coroutine = true;
  is_method = true;
  parameters = 1;
  referrers = 2;
}

abbrev no_subscribers : Event
no_subscribers = record { subscribers = []; last_sent = none }

abbrev session : List Call
session =
    subscribing 10 (callback 1)
    ∷ subscribing 20 (callback 2)
    ∷ unsubscribing 10
    ∷ unsubscribing 30
    ∷ subscribing 40 (record (callback 3) { parameters = 2 })
    ∷ []

calls-Represents_example :
    Represents (calls session no_subscribers).0 (all_on_map session (λ j. none)).0
    × ((calls session no_subscribers).1 ≡ some true ∷ some true ∷ some true ∷ none ∷ none ∷ [])
calls-Represents_example =
    calls-Represents session no_subscribers (λ j. none) (λ j. refl) (refl, (refl, (refl, tt)))

-- Of the three, the second is gone, and the callback of the third raises.
abbrev world : World
world = record {
  is_alive = λ r. if r == 2 then false else true;
  raised = λ r. if r == 3 then some value_error else none;
}

abbrev three : Event
three = record {
  subscribers =
      subscriber_of 10 (callback 1)
      ∷ subscriber_of 20 (callback 2)
      ∷ subscriber_of 30 (callback 3)
      ∷ [];
  last_sent = none;
}

publish_lem_example :
    (All (IsQuiet world) three.subscribers
      → publish world 7 three ≡ (
        record three { last_sent = some 7 },
        (made (refs world three.subscribers) (lost world three.subscribers), none),
      ))
    × ((b l : List Subscriber) (t : Subscriber) (e : Error)
        → three.subscribers ≡ b ++ (t ∷ l)
        → All (IsQuiet world) b
        → is_reachable world t ≡ true
        → world.raised t.ref ≡ some e
        → publish world 7 three ≡ (
          record three { last_sent = some 7 },
          (made (refs world b ++ (t.ref ∷ [])) (lost world b), some e),
        ))
publish_lem_example = publish_lem world 7 three

three-published : publish world 7 three ≡ (
  record three { last_sent = some 7 },
  (record { called = 1 ∷ 3 ∷ []; disappeared = 20 ∷ [] }, some value_error),
)
unfolding publish
three-published = refl
