-- ===== src/EventManager.antt =====
-- SubscribedEvent of src/pyDE1/event_manager/event_manager.py: the subscribers of an event, and to
-- whom a payload goes. The lock makes each call one step; an identifier is a number.
pub mod Subscribers
pub mod Delivery
use Prim.Native.String.{String}
use py_de.Base.{
  ℕ, ◌+◌, Bool, true, false, ◌&&◌, not, Option, none, some, List, [], ◌∷◌, ◌++◌, Error, Result, ok,
  err, type_error, length, ltb, ◌==◌, if◌then◌else◌,
}

-- What `subscribe` finds out about a callback: whether it is a coroutine function and a method, how
-- many arguments it takes, and how many references there are to it.
pub record Callback : Type 0 where
  pub handle : ℕ
  pub is_coroutine : Bool
  pub is_method : Bool
  pub parameters : ℕ
  pub referrers : ℕ

-- SESubscriber, with the members of SESType that are set
pub record Subscriber : Type 0 where
  pub id : ℕ
  pub ref : ℕ
  pub awaits : Bool
  pub method : Bool
  pub hard_ref : Bool

-- The payloads are numbered.
pub record Event : Type 0 where
  pub subscribers : List Subscriber
  pub last_sent : Option ℕ

abbrev pub subscriber_of : ℕ → Callback → Subscriber
subscriber_of id c = record {
  id = id;
  ref = c.handle;
  awaits = c.is_coroutine;
  method = c.is_method;
  hard_ref = not c.is_method && c.referrers == 0;
}

-- `subscribe`, with the identifier that `uuid4` gives
unfoldable pub subscribe : ℕ → Callback → Event → Event × Result ℕ
subscribe id c s =
    if c.parameters == 1
    then (record s { subscribers = s.subscribers ++ (subscriber_of id c ∷ []) }, ok id)
    else (s, err type_error)

-- An identifier as it is given: none, one of `uuid`, or a text, which may be none of `uuid`.
pub data Identifier : Type 0 where
  no_id : Identifier
  uuid : ℕ → Identifier
  text : String → Identifier

-- `filter(lambda s: s[0] != id, ...)`
abbrev pub without : ℕ → List Subscriber → List Subscriber
without id [] = []
without id (s ∷ l) = let rest = without id l in if s.id == id then rest else s ∷ rest

-- `True` where one was removed, and `None` where none was found
abbrev remove : ℕ → Event → Event × Option Bool
remove id s =
    let l = without id s.subscribers in
    (
      record s { subscribers = l },
      if ltb (length l) (length s.subscribers) then some true else none,
    )

abbrev remove_parsed : Option ℕ → Event → Event × Option Bool
remove_parsed none s = (s, some false)
remove_parsed (some id) s = remove id s

module _ (parse : String → Option ℕ) where
  -- `unsubscribe`; `parse` is what `uuid.UUID` makes of a text, `none` where it raises.
  unfoldable pub unsubscribe : Identifier → Event → Event × Option Bool
  unsubscribe no_id s = (s, some true)
  unsubscribe (uuid id) s = remove id s
  unsubscribe (text t) s = remove_parsed (parse t) s

-- What happens to the references: whether what it refers to is still there, and the exception that
-- the callback raises on the payload, if it does.
pub record World : Type 0 where
  pub is_alive : ℕ → Bool
  pub raised : ℕ → Option Error

-- To whom a payload has gone, by reference, and which subscribers are to be unsubscribed later.
pub record Deliveries : Type 0 where
  pub called : List ℕ
  pub disappeared : List ℕ

abbrev call : ℕ → Deliveries → Deliveries
call r d = record d { called = r ∷ d.called }

abbrev pub drop_later : ℕ → Deliveries → Deliveries
drop_later id d = record d { disappeared = id ∷ d.disappeared }

abbrev pub nobody : Deliveries
nobody = record { called = []; disappeared = [] }

module _ (w : World) where
  abbrev after_call : ℕ → Deliveries × Option Error → Option Error → Deliveries × Option Error
  after_call r rest none = (call r rest.0, rest.1)
  after_call r rest (some e) = (call r nobody, some e)

  -- The loop over the subscribers, up to the first callback that raises.
  unfoldable pub deliver : List Subscriber → Deliveries × Option Error
  deliver [] = (nobody, none)
  deliver (s ∷ l) =
      let rest = deliver l in
      let reached : Deliveries × Option Error = after_call s.ref rest (w.raised s.ref) in
      let gone : Deliveries × Option Error = (drop_later s.id rest.0, rest.1) in
      if s.hard_ref then reached else if w.is_alive s.ref then reached else gone

  -- `publish`, up to the pipes, without the sender and the times that it writes into the payload
  unfoldable pub publish : ℕ → Event → Event × (Deliveries × Option Error)
  unfolding deliver
  publish payload s = (record s { last_sent = some payload }, deliver s.subscribers)
