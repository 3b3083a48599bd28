-- ===== src/Dispatcher/Accepts.antt =====
-- Which requests are accepted, stated apart from the checks of src/pyDE1/dispatcher/validate.py.
use Prim.Native.String.{String}
use py_de.Base.{
  ℕ, ◌≡◌, ◌↔◌, inl, inr, refl, sym, ap, ◌∙◌, Bool, true, false, Option, none, some, List, [], ◌∷◌,
  ◌++◌, Error, ok, de1_api_attribute_error, de1_api_type_error, de1_api_value_error, Method,
  continue, finish, Bool-cases, Option-cases,
}
use py_de.Json.{Json, Fields, str, object, no_fields, field}
use py_de.Dispatcher.Mapping.{
  Content, parsed, raw, IsAt, Mapping, Entries, is_at, tree, other, Targets, no_targets, mark,
  requires_connected_de1, requires_connected_scale,
}
use py_de.Dispatcher.Validate.{
  has_type, convert, check_is_at, lookup, validate_fields, validate_value, validate_content,
  validate_patch_return_targets,
}

-- A value that may be written, has the type, and is a member of the internal type, if there is one.
pub record Fits (a : IsAt) (v : Content) : Type 0 where
  writable : a.read_only ≡ false
  typed : has_type v a.v_type ≡ true
  member : (p : Content → Bool) → a.internal_type ≡ some p → p v ≡ true

mutual
  -- A value for a mapping, and the places that it reaches.
  pub data Takes : Mapping → Json → List IsAt → Type 0 where
    value : {a : IsAt} {v : Json} → Fits a (parsed v) → Takes (is_at a) v (a ∷ [])
    dict :
        {es : Entries} {fs : Fields} {l : List IsAt}
        → TakesAll es fs l
        → Takes (tree es) (object fs) l

  pub data TakesAll : Entries → Fields → List IsAt → Type 0 where
    nil : {es : Entries} → TakesAll es no_fields []
    cons :
        {es : Entries} {k : String} {v : Json} {fs : Fields} {l r : List IsAt} (m : Mapping)
        → lookup k es ≡ some m
        → Takes m v l
        → TakesAll es fs r
        → TakesAll es (field k v fs) (l ++ r)

-- The devices that the places need are added to those before.
abbrev pub marks : List IsAt → Targets → Targets
marks [] t = t
marks (a ∷ l) t = marks l (mark a t)

pub marks-append : (l r : List IsAt) (t : Targets) → marks (l ++ r) t ≡ marks r (marks l t)
marks-append [] r t = refl
marks-append (a ∷ l) r t = marks-append l r (mark a t)

convert-member :
    (o : Option (Content → Bool)) (v : Content) (t : Targets)
    → ((p : Content → Bool) → o ≡ some p → p v ≡ true)
    → convert o v t ≡ (t, none)
convert-member none v t h = refl
convert-member (some p) v t h = rw (h p refl) refl

check_complete :
    (a : IsAt) (v : Content) (t : Targets) → Fits a v → check_is_at a v t ≡ (mark a t, none)
unfolding check_is_at requires_connected_de1 requires_connected_scale
check_complete a v t f =
    rw (f.writable, f.typed) (convert-member a.internal_type v (mark a t) f.member)

mutual
  unfolding validate_fields

  value_complete :
      {m : Mapping} {v : Json} {l : List IsAt}
      → Takes m v l
      → (t : Targets) → validate_value v (some m) t ≡ (marks l t, none)
  value_complete (value {a} {v} f) t = check_complete a (parsed v) t f
  value_complete (dict h) t = fields_complete h t

  fields_complete :
      {es : Entries} {fs : Fields} {l : List IsAt}
      → TakesAll es fs l
      → (t : Targets) → validate_fields fs es t ≡ (marks l t, none)
  fields_complete nil t = refl
  fields_complete (cons {es} {k} {v} {fs} {l} {r} m e h hs) t = rw e (
      ap (λ q. continue q.1 (validate_fields fs es) q.0) (value_complete h t)
      ∙ fields_complete hs (marks l t)
      ∙ ap (λ u. (u, none)) (sym (marks-append l r t)))

check_sound :
    (a : IsAt) (v : Content) (t u : Targets)
    → check_is_at a v t ≡ (u, none)
    → Fits a v × (u ≡ mark a t)
unfolding check_is_at requires_connected_de1 requires_connected_scale
check_sound a v t u e = elim (Bool-cases a.read_only) [
  | inl p ↦ absurd (let e' : (t, some de1_api_attribute_error) ≡ (u, none) = rw p at e in cc)
  | inr p ↦ elim (Bool-cases (has_type v a.v_type)) [
    | inr q ↦ absurd (let e' : (t, some de1_api_type_error) ≡ (u, none) = rw (p, q) at e in cc)
    | inl q ↦
        let e' : convert a.internal_type v (mark a t) ≡ (u, none) = rw (p, q) at e in
        let (h, same) = converted a.internal_type v (mark a t) u e' in
        (record { writable = p; typed = q; member = h }, same)
  ]
]
  where
    converted :
        (o : Option (Content → Bool)) (v : Content) (t u : Targets)
        → convert o v t ≡ (u, none)
        → ((p : Content → Bool) → o ≡ some p → p v ≡ true) × (u ≡ t)
    converted none v t u e = ((λ p h. absurd (cc)), cc)
    converted (some p) v t u e = elim (Bool-cases (p v)) [
      | inl h ↦ (
        (λ q i. let same : p ≡ q = cc in rw (← same) h),
        (let e' : (t, none) ≡ (u, none) = rw h at e in cc),
      )
      | inr h ↦ absurd (let e' : (t, some de1_api_value_error) ≡ (u, none) = rw h at e in cc)
    ]

-- A step that has not raised, and what follows.
then_sound :
    (p : Targets × Option Error) (n : Method Targets) (u : Targets)
    → continue p.1 n p.0 ≡ (u, none)
    → (p ≡ (p.0, none)) × (n p.0 ≡ (u, none))
then_sound (s, none) n u e = (refl, e)
then_sound (s, some x) n u e = absurd (cc)

abbrev IsSound : Mapping → Json → Targets → Targets → Type 0
IsSound m v t u = (l : List IsAt) × Takes m v l × (u ≡ marks l t)

abbrev AreSound : Entries → Fields → Targets → Targets → Type 0
AreSound es fs t u = (l : List IsAt) × TakesAll es fs l × (u ≡ marks l t)

mutual
  unfolding validate_fields

  value-IsSound :
      (v : Json) (m : Mapping) (t u : Targets)
      → validate_value v (some m) t ≡ (u, none)
      → IsSound m v t u
  value-IsSound v (is_at a) t u e =
      let (f, same) = check_sound a (parsed v) t u e in (a ∷ [], value f, same)
  value-IsSound v other t u e = absurd (cc)
  value-IsSound (object fs) (tree es) t u e =
      let (l, h, same) = fields-AreSound fs es t u e in (l, dict h, same)
  value-IsSound v (tree es) t u e = absurd (cc)

  fields-AreSound :
      (fs : Fields) (es : Entries) (t u : Targets)
      → validate_fields fs es t ≡ (u, none)
      → AreSound es fs t u
  fields-AreSound no_fields es t u e = ([], nil, cc)
  fields-AreSound (field k v fs) es t u e = elim (Option-cases (lookup k es)) [
    | inl missing ↦
        absurd (let e' : (t, some de1_api_attribute_error) ≡ (u, none) = rw missing at e in cc)
    | inr (m, found) ↦
        let e' : continue (validate_value v (some m) t).1 (validate_fields fs es)
              (validate_value v (some m) t).0
            ≡ (u, none) =
          rw found at e in
        let (first, rest) = then_sound (validate_value v (some m) t) (validate_fields fs es) u e' in
        let (l, h, same) = value-IsSound v m t (validate_value v (some m) t).0 first in
        let (r, hs, same') = fields-AreSound fs es (validate_value v (some m) t).0 u rest in
        (l ++ r, cons m found h hs, same' ∙ ap (marks r) same ∙ sym (marks-append l r t))
  ]

-- A whole request: a dict for a dict, or a text or bytes for a place.
pub data Accepts : Mapping → Content → List IsAt → Type 0 where
  fields :
      {es : Entries} {fs : Fields} {l : List IsAt}
      → TakesAll es fs l
      → Accepts (tree es) (parsed (object fs)) l
  text :
      {a : IsAt} {s : String}
      → Fits a (parsed (str s))
      → Accepts (is_at a) (parsed (str s)) (a ∷ [])
  content : {a : IsAt} {bs : List ℕ} → Fits a (raw bs) → Accepts (is_at a) (raw bs) (a ∷ [])

abbrev Reaches : Mapping → Content → Targets → Type 0
Reaches m c t = (l : List IsAt) × Accepts m c l × (t ≡ marks l no_targets)

finish-ok : (p : Targets × Option Error) (t : Targets) → finish p ≡ ok t → p ≡ (t, none)
finish-ok (s, none) t e = cc
finish-ok (s, some x) t e = absurd (cc)

content_sound :
    (m : Mapping) (c : Content) (t : Targets)
    → validate_content m c no_targets ≡ (t, none)
    → Reaches m c t
unfolding validate_content
content_sound (tree es) (parsed (object fs)) t e =
    let (l, h, same) = fields-AreSound fs es no_targets t e in (l, fields h, same)
content_sound (is_at a) (parsed (str s)) t e =
    let (f, same) = check_sound a (parsed (str s)) no_targets t e in (a ∷ [], text f, same)
content_sound (is_at a) (raw bs) t e =
    let (f, same) = check_sound a (raw bs) no_targets t e in (a ∷ [], content f, same)
content_sound m c t e = absurd (cc)

content_complete :
    {m : Mapping} {c : Content} {l : List IsAt}
    → Accepts m c l
    → validate_content m c no_targets ≡ (marks l no_targets, none)
unfolding validate_content
content_complete (fields h) = fields_complete h no_targets
content_complete (text {a} {s} f) = check_complete a (parsed (str s)) no_targets f
content_complete (content {a} {bs} f) = check_complete a (raw bs) no_targets f

-- A request passes the checks exactly if it is accepted by the rules: every key is in the mapping,
-- every value has a place that may be written, with its type and a member of its internal type, and
-- a dict meets a dict. The targets are then the devices that the places need, and no others.
pub validate_patch-Accepts :
    (m : Mapping) (c : Content) (t : Targets)
    → (validate_patch_return_targets m c ≡ ok t)
      ↔ ((l : List IsAt) × Accepts m c l × (t ≡ marks l no_targets))
unfolding validate_patch_return_targets
validate_patch-Accepts m c t = (
  (λ e. content_sound m c t (finish-ok (validate_content m c no_targets) t e)),
  λ (l, h, same). ap finish (content_complete h) ∙ ap ok (sym same),
)
