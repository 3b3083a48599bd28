-- ===== src/Scale/Acaia/Weights.antt =====
-- The weights that a scale sends, in src/pyDE1/scale/acaia.py.
use mathlib.Core.List.{append_assoc, append-nil}
use py_de.Base.{
  ltb, ℕ, ◌+◌, ◌*◌, ◌/◌, ◌%◌, ◌^◌, ◌≡◌, refl, sym, ap, ◌∙◌, Bool, true, false, none, some, Option,
  Error, ok, length, List, [], ◌∷◌, ◌++◌, map, arith, All, if◌then◌else◌,
}
use py_de.PyNum.{Num, pos, neg}
use py_de.Scale.Acaia.Incoming.{
  Readings, process_message, read_weight, weight_of, on_type, equal, message_type?, event_type?,
}
use py_de.Scale.Acaia.Framing.{receive_all}
use py_de.Scale.Acaia.Framing.Splitting.{
  IsMessage, framed, IsAccepted, concat, deliver, receive_all-concat,
}

-- What else a weight event has, by its length: nothing, two bytes, a time, or a battery and a time.
pub data Extra : Type 0 where
  short : Extra
  battery : ℕ → ℕ → Extra
  long : ℕ → ℕ → ℕ → ℕ → Extra
  longer : ℕ → ℕ → ℕ → ℕ → ℕ → ℕ → Extra

abbrev extra_bytes : Extra → List ℕ
extra_bytes short = []
extra_bytes (battery a b) = a ∷ b ∷ []
extra_bytes (long a b c d) = a ∷ b ∷ c ∷ d ∷ []
extra_bytes (longer a b c d e f) = a ∷ b ∷ c ∷ d ∷ e ∷ f ∷ []

-- A weight event, with a byte that is not used and any check bytes.
pub record Reading : Type 0 where
  pub mantissa : ℕ
  pub unused : ℕ
  pub exponent : ℕ
  pub negative : Bool
  pub unsettled : Bool
  pub extra : Extra
  pub even_sum : ℕ
  pub odd_sum : ℕ

abbrev flags : Bool → Bool → ℕ
flags negative unsettled = (if negative then 2 else 0) + (if unsettled then 1 else 0)

abbrev pub weight_message : Reading → List ℕ
weight_message r =
    0xef
    ∷ 0xdd
    ∷ 12
    ∷ (8 + length (extra_bytes r.extra))
    ∷ 5
    ∷ r.mantissa % 256
    ∷ r.mantissa / 256 % 256
    ∷ r.mantissa / 65536
    ∷ r.unused
    ∷ r.exponent
    ∷ flags r.negative r.unsettled
    ∷ (extra_bytes r.extra ++ (r.even_sum ∷ r.odd_sum ∷ []))

abbrev pub value : Reading → Num
value r = record {
  num = if r.negative then neg r.mantissa else pos r.mantissa;
  den = 10 ^ r.exponent;
}

weight_of-flags :
    (m n e : ℕ) (negative unsettled : Bool)
    → m ≡ n
    → weight_of m e (flags negative unsettled)
      ≡ record { num = if negative then neg n else pos n; den = 10 ^ e }
weight_of-flags m n e true true h = rw h refl
weight_of-flags m n e true false h = rw h refl
weight_of-flags m n e false true h = rw h refl
weight_of-flags m n e false false h = rw h refl

extra-framed : (r : Reading) → IsMessage (weight_message r)
extra-framed r = go r.extra
  where
    go : (e : Extra) → IsMessage (weight_message (record r { extra = e }))
    go short = framed 12 8 _ refl refl
    go (battery a b) = framed 12 10 _ refl refl
    go (long a b c d) = framed 12 12 _ refl refl
    go (longer a b c d e f) = framed 12 14 _ refl refl

read_weight-message : (r : Reading) → read_weight (weight_message r) ≡ ok (value r)
unfolding read_weight
read_weight-message r =
    go r.extra
    ∙ ap ok (weight_of-flags _ r.mantissa r.exponent r.negative r.unsettled (omega arith))
  where
    go :
        (e : Extra)
        → read_weight (weight_message (record r { extra = e }))
          ≡ ok (
              weight_of
                (r.mantissa % 256 + r.mantissa / 256 % 256 * 256 + r.mantissa / 65536 * 65536)
                r.exponent
                (flags r.negative r.unsettled))
    go short = refl
    go (battery a b) = refl
    go (long a b c d) = refl
    go (longer a b c d e f) = refl

module _ (subscribers : List Num → Option Error) where
  process_message-weight :
      (r : Reading) (s : Readings)
      → process_message subscribers (weight_message r) s
        ≡ (let ws = s.weights ++ (value r ∷ []) in (record s { weights = ws }, subscribers ws))
  unfolding process_message on_type equal message_type? event_type?
  process_message-weight r s =
      let long_enough : ltb (length (weight_message r)) 7 ≡ false = ground arith in
      rw (long_enough, read_weight-message r) refl

-- No subscriber raises.
module _ (subscribers : List Num → Option Error)
    (quiet : (ws : List Num) → subscribers ws ≡ none) where
  pub weight_message-IsAccepted :
      (r : Reading) → IsAccepted (process_message subscribers) (weight_message r)
  weight_message-IsAccepted r =
      (extra-framed r, λ s. ap (λ p. p.1) (process_message-weight subscribers r s) ∙ quiet _)

  All-IsAccepted :
      (rs : List Reading) → All (IsAccepted (process_message subscribers)) (map weight_message rs)
  All-IsAccepted [] = tt
  All-IsAccepted (r ∷ rs) = (weight_message-IsAccepted r, All-IsAccepted rs)

  deliver-weights :
      (rs : List Reading) (s : Readings)
      → deliver (process_message subscribers) (map weight_message rs) s
        ≡ record s { weights = s.weights ++ map value rs }
  deliver-weights [] s = ap (λ l. record s { weights = l }) (sym (append-nil s.weights))
  deliver-weights (r ∷ rs) s =
      ap (λ p. deliver (process_message subscribers) (map weight_message rs) p.0)
        (process_message-weight subscribers r s)
      ∙ deliver-weights rs (record s { weights = s.weights ++ (value r ∷ []) })
      ∙ ap (λ l. record s { weights = l }) (append_assoc s.weights (value r ∷ []) (map value rs))

  -- However a scale's weight events, of the four lengths that it sends, are cut into packets: if no
  -- subscriber of the weights raises, they are published in order, each with its sign and scale and
  -- none twice, and no byte of them stays in the buffer.
  pub receive_all-weights :
      (rs : List Reading) (packets : List (List ℕ)) (s : Readings)
      → concat packets ≡ concat (map weight_message rs)
      → receive_all (process_message subscribers) packets ([], s)
        ≡ some ([], record s { weights = s.weights ++ map value rs })
  receive_all-weights rs packets s e =
      receive_all-concat (process_message subscribers) packets (map weight_message rs) s
        (All-IsAccepted rs) e
      ∙ ap (λ r. some ([], r)) (deliver-weights rs s)
