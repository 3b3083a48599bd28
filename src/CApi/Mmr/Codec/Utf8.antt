-- ===== src/CApi/Mmr/Codec/Utf8.antt =====
-- Python's strict UTF-8, as `bytes.decode('utf-8')` checks it: no overlong forms, no surrogates, and
-- nothing past U+10FFFF.
use py_de.Base.{
  ℕ, ◌-◌, ◌≡◌, refl, Bool, true, false, ◌&&◌, Option, none, some, List, [], ◌∷◌, leb, ltb, ◌==◌,
  if◌then◌else◌,
}

-- How many bytes are to follow in the character, and the range of the next.
pub record Pending : Type 0 where
  pub count : ℕ
  pub low : ℕ
  pub high : ℕ

abbrev more : ℕ → ℕ → ℕ → Option Pending
more n low high = some (record { count = n; low = low; high = high })

abbrev within : ℕ → ℕ → ℕ → Bool
within low high c = leb low c && leb c high

lead : ℕ → Option Pending
lead c =
    if ltb c 0x80
    then more 0 0x80 0xbf
    else if within 0xc2 0xdf c
    then more 1 0x80 0xbf
    else if c == 0xe0
    then more 2 0xa0 0xbf
    else if c == 0xed
    then more 2 0x80 0x9f
    else if within 0xe1 0xef c
    then more 2 0x80 0xbf
    else if c == 0xf0
    then more 3 0x90 0xbf
    else if within 0xf1 0xf3 c
    then more 3 0x80 0xbf
    else if c == 0xf4
    then more 3 0x80 0x8f
    else none

advance : Pending → ℕ → Option Pending
unfolding lead
advance p c =
    if p.count == 0
    then lead c
    else if within p.low p.high c
    then more (p.count - 1) 0x80 0xbf
    else none

scan : Pending → List ℕ → Bool
unfolding advance
scan p [] = p.count == 0
scan p (c ∷ cs) = elim (advance p c) [ none ↦ false | some q ↦ scan q cs ]

unfoldable pub is_utf8 : List ℕ → Bool
unfolding scan
is_utf8 = scan (record { count = 0; low = 0x80; high = 0xbf })

utf8_tests :
    (is_utf8 (0x41 ∷ 0xc3 ∷ 0xa9 ∷ 0xf0 ∷ 0x9f ∷ 0x98 ∷ 0x80 ∷ []) ≡ true)
    × (is_utf8 (0xed ∷ 0xa0 ∷ 0x80 ∷ []) ≡ false)
    × (is_utf8 (0xc3 ∷ []) ≡ false)
unfolding is_utf8
utf8_tests = (refl, refl, refl)
