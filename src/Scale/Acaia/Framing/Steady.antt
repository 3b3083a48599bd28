-- ===== src/Scale/Acaia/Framing/Steady.antt =====
-- Whether the processing of a message of src/pyDE1/scale/acaia.py raises is up to the message, where no
-- subscriber raises.
use py_de.Base.{
  ℕ, ◌≡◌, ◌⊎◌, inl, inr, refl, ◌∙◌, Bool, true, false, Option, none, some, List, [], ◌∷◌, ◌++◌,
  Error, Method, assign, ◌>>◌, ◌>>=◌, attribute_error, Result, ok, err, length, ltb, if◌then◌else◌,
}
use py_de.PyNum.{Num}
use py_de.Scale.Acaia.Incoming.{
  Readings, Info, EventType, weight, payload_of, is_nonstandard, save_info, name, on_status,
  on_event, process_message, at, on_type, message_type?, event_type?, read_weight, config_units?,
  config_auto_off?, config_range?, config_beep?,
}
use py_de.Scale.Acaia.{ConfigRange, MessageType, event, status}

-- A method that never raises, or that always raises the same and publishes nothing.
abbrev pub IsSteady : Method Readings → Type 0
IsSteady m =
    ((s : Readings) → (m s).1 ≡ none)
    ⊎ ((e : Error) × ((s : Readings) → ((m s).1 ≡ some e) × ((m s).0.weights ≡ s.weights)))

assign-IsSteady : (f : Readings → Readings) → IsSteady (assign f)
assign-IsSteady f = inl (λ s. refl)

after-IsSteady :
    (f : Readings → Readings) (n : Method Readings)
    → ((s : Readings) → (f s).weights ≡ s.weights)
    → IsSteady n
    → IsSteady (assign f >> n)
after-IsSteady f n h (inl k) = inl (λ s. k (f s))
after-IsSteady f n h (inr (e, k)) = inr (e, λ s. let (p, q) = k (f s) in (p, q ∙ h s))

bind-IsSteady {ℓ} :
    {A : Type ℓ} (r : Result A) (f : A → Method Readings)
    → ((a : A) → IsSteady (f a))
    → IsSteady (r >>= f)
bind-IsSteady (ok a) f h = h a
bind-IsSteady (err e) f h = inr (e, λ s. (refl, refl))

if-IsSteady :
    (b : Bool) (m n : Method Readings) → IsSteady m → IsSteady n → IsSteady (if b then m else n)
if-IsSteady true m n hm hn = hm
if-IsSteady false m n hm hn = hn

name-IsSteady {ℓ} :
    {A : Type ℓ} (o : Option A) (n : Method Readings) → IsSteady n → IsSteady (name o >> n)
name-IsSteady none n h = inr (attribute_error, λ s. (refl, refl))
name-IsSteady (some a) n h = h

last-IsSteady {ℓ} : {A : Type ℓ} (o : Option A) → IsSteady (name o)
last-IsSteady none = inr (attribute_error, λ s. (refl, refl))
last-IsSteady (some a) = assign-IsSteady (λ s. s)

save_info-IsSteady :
    (r : Option ConfigRange) (i : ConfigRange → Info) (n : Method Readings)
    → IsSteady n
    → IsSteady (save_info r i >> n)
save_info-IsSteady none i n h = h
save_info-IsSteady (some r) i n h =
    after-IsSteady (λ s. record s { last_info = some (i r) }) n (λ s. refl) h

on_status-IsSteady : (p : List ℕ) → IsSteady (on_status p)
unfolding config_units? config_auto_off? config_range? config_beep?
on_status-IsSteady p = bind-IsSteady (at p 0) _ λ battery. bind-IsSteady (at p 1) _ λ u.
    bind-IsSteady (at p 2) _ λ unk2. bind-IsSteady (at p 3) _ λ a. bind-IsSteady (at p 4) _ λ unk4.
      bind-IsSteady (at p 5) _ λ b. bind-IsSteady (at p 7) _ λ r.
        save_info-IsSteady (config_range? r) _ _ (
          name-IsSteady (config_units? u) _ (
            name-IsSteady (config_auto_off? a) _
              (name-IsSteady (config_beep? b) _ (last-IsSteady (config_range? r)))))

-- No subscriber of the weights raises.
module _ (subscribers : List Num → Option Error)
    (quiet : (ws : List Num) → subscribers ws ≡ none) where
  on_event-IsSteady : (m : List ℕ) (t : Option EventType) → IsSteady (on_event subscribers m t)
  unfolding read_weight
  on_event-IsSteady m (some weight) =
      bind-IsSteady (read_weight m) _ λ w. inl (λ s. quiet (s.weights ++ (w ∷ [])))
  on_event-IsSteady m _ = assign-IsSteady (λ s. s)

  on_type-IsSteady :
      (m : List ℕ) (c : ℕ) (t : Option MessageType) → IsSteady (on_type subscribers m c t)
  unfolding on_type
  on_type-IsSteady m c (some event) = on_event-IsSteady m (event_type? c)
  on_type-IsSteady m c (some status) = on_status-IsSteady (payload_of m)
  on_type-IsSteady m c _ = assign-IsSteady (λ s. s)

  pub process_message-IsSteady : (m : List ℕ) → IsSteady (process_message subscribers m)
  unfolding process_message
  process_message-IsSteady m = if-IsSteady (is_nonstandard m) _ _ (assign-IsSteady (λ s. s)) (
      if-IsSteady (ltb (length m) 7) _ _ (assign-IsSteady (λ s. s)) (
        bind-IsSteady (at m 2) _
          λ t. bind-IsSteady (at m 4) _ λ c. on_type-IsSteady m c (message_type? t)))
