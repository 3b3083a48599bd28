-- ===== src/Dispatcher/Needs.antt =====
-- What a mapping needs, in src/pyDE1/dispatcher/mapping.py, and what a request for it may need.
use py_de.Base.{
  ◌≡◌, refl, sym, ap, ◌∙◌, Bool, true, false, ◌&&◌, List, [], ◌∷◌, ◌++◌, if◌then◌else◌,
}
use py_de.Dispatcher.Mapping.{
  IsAt, Mapping, Entries, is_at, tree, other, no_entries, entry, Targets, no_targets, mark,
  requires_inner, requires_entries, mapping_requires, requires_connected_de1,
  requires_connected_scale,
}
use py_de.Dispatcher.Accepts.{marks, marks-append}

unfoldable mutual
  -- All places below a mapping.
  pub leaves : Mapping → List IsAt
  leaves (is_at a) = a ∷ []
  leaves (tree es) = leaves_of es
  leaves other = []

  pub leaves_of : Entries → List IsAt
  leaves_of no_entries = []
  leaves_of (entry k m es) = leaves m ++ leaves_of es

abbrev full : Targets
full = record { de1 = true; scale = true }

either : (b : Bool) → (if b then true else true) ≡ true
either true = refl
either false = refl

mark-full : (a : IsAt) → mark a full ≡ full
unfolding mark
mark-full a = λ i. record {
  de1 = either (requires_connected_de1 a) i;
  scale = either (requires_connected_scale a) i;
}

marks-full : (l : List IsAt) → marks l full ≡ full
marks-full [] = refl
marks-full (a ∷ l) = ap (marks l) (mark-full a) ∙ marks-full l

-- Stopping early leaves nothing out, since nothing is left to set.
stop-early : (t : Targets) (l : List IsAt) → (if t.de1 && t.scale then t else marks l t) ≡ marks l t
stop-early t l = go t.de1 t.scale
  where
    go :
        (d s : Bool)
        → let u : Targets = record { de1 = d; scale = s } in
          (if d && s then u else marks l u) ≡ marks l u
    go true true = sym (marks-full l)
    go true false = refl
    go false s = refl

mutual
  unfolding requires_inner leaves

  inner-marks : (m : Mapping) (t : Targets) → requires_inner m t ≡ marks (leaves m) t
  inner-marks (is_at a) t = refl
  inner-marks (tree es) t = entries-marks es t
  inner-marks other t = refl

  entries-marks : (es : Entries) (t : Targets) → requires_entries es t ≡ marks (leaves_of es) t
  entries-marks no_entries t = refl
  entries-marks (entry k m es) t = rw (entries-marks es (requires_inner m t)) (
      stop-early (requires_inner m t) (leaves_of es)
      ∙ ap (marks (leaves_of es)) (inner-marks m t)
      ∙ sym (marks-append (leaves m) (leaves_of es) t))

-- What a mapping needs is what any place in it needs, however early the walk stops.
pub mapping_requires-marks : (es : Entries) → mapping_requires es ≡ marks (leaves_of es) no_targets
unfolding mapping_requires
mapping_requires-marks es = entries-marks es no_targets
